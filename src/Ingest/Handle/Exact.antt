-- ===== src/Ingest/Handle/Exact.antt =====
-- What the store holds beside its rows where nothing fails after the INSERT.
use getarp.Base.Exec.{Result, ok, raise}
use getarp.Base.Int.{ℤ}
use getarp.Base.{
  ◌&&◌, eqb, ℕ, List, ◌++◌, any, ◌||◌, refl, ap, ap₂, sym, append_nil, ◌∙◌, ◌+◌, String, Bool, true,
  false, not, Option, none, some, [], ◌∷◌, ◌≡◌, arith, if◌then◌else◌, Bool-cases, Option-cases, inl,
  inr,
}
use getarp.Json.{Value}
use getarp.Retry.{Ex}
use getarp.Ingest.Event.{Event}
use getarp.Ingest.Normalize.{Sensor, normalize}
use getarp.Ingest.Source.{Address}
use getarp.Ingest.Redact.{redact_password, redact_raw}
use getarp.Ingest.Store.{
  Row, IpRow, Store, has_row, has_ip, same_address, seen_again, upsert_ip, service_text,
  port_number,
}
use getarp.Ingest.Handle.{
  Runtime, Attempt, payload, ip_text, publish, count, insert, store_row, write, admit, prepared,
  deliver, dispatch, handle,
}
use getarp.Ingest.Handle.Replay.{row_of}

-- the same address
abbrev is_same : Address → Address → Bool
is_same a b = eqb a.version b.version && eqb a.number b.number

-- the row is about an event of this address
abbrev pub is_from : Runtime → Address → Row → Bool
is_from rt a row = elim (rt.parse_ip row.event.src_ip) [ none ↦ false | some b ↦ is_same b a ]

-- how many rows are about events of this address
abbrev pub rows_of : Runtime → Address → List Row → ℕ
rows_of rt a [] = 0
rows_of rt a (row ∷ rows) = (if is_from rt a row then 1 else 0) + rows_of rt a rows

-- the `event_count` of an address
abbrev pub count_of : Address → List IpRow → ℕ
count_of a [] = 0
count_of a (row ∷ rows) = (if is_same row.src_ip a then row.event_count else 0) + count_of a rows

-- the payloads of the rows' events, the oldest row first
abbrev pub payloads : Runtime → List Row → List (List (String × String))
payloads rt [] = []
payloads rt (row ∷ rows) = payloads rt rows ++ payload rt.to_text row.event ∷ []

-- no earlier row is about the address of this one
abbrev is_first : Runtime → Row → List Row → Bool
is_first rt row rows = elim (rt.parse_ip row.event.src_ip) [
  | none ↦ false
  | some a ↦ not (any (is_from rt a) rows)
]

-- each address as the first row about it spells it, the oldest first
abbrev pub first_texts : Runtime → List Row → List String
first_texts rt [] = []
first_texts rt (row ∷ rows) =
    first_texts rt rows ++ (if is_first rt row rows then ip_text row.event.src_ip ∷ [] else [])

-- every row is counted for its address and published, every address is queued
pub record IsExact (rt : Runtime) (s : Store) : Type 0 where
  pub counted : (a : Address) → count_of a s.ips ≡ rows_of rt a s.rows
  pub known : (a : Address) → has_ip a s.ips ≡ any (is_from rt a) s.rows
  pub published : s.bus ≡ payloads rt s.rows
  pub queued : s.queue ≡ first_texts rt s.rows

count_of-upsert :
    (a : Address) (now : ℕ) (b : Address) (service : String) (port : Option ℤ) (rows : List IpRow)
    → count_of a (upsert_ip now b service port rows)
      ≡ (if same_address b a then 1 else 0) + count_of a rows
unfolding upsert_ip seen_again
count_of-upsert a now b service port [] = refl
count_of-upsert a now b service port (row ∷ rows) =
    ground (arith, count_of-upsert a now b service port rows)

has_ip-upsert :
    (a : Address) (now : ℕ) (b : Address) (service : String) (port : Option ℤ) (rows : List IpRow)
    → has_ip a (upsert_ip now b service port rows) ≡ (same_address b a || has_ip a rows)
unfolding upsert_ip seen_again has_ip
has_ip-upsert a now b service port [] = refl
has_ip-upsert a now b service port (row ∷ rows) =
    ground (arith, has_ip-upsert a now b service port rows)

-- only the INSERT may fail
pub record IsCalm (a : Attempt) : Type 0 where
  pub upsert : a.upsert_fault ≡ none
  pub bus : a.bus_fault ≡ none
  pub queue : a.queue_fault ≡ none

admit_parses :
    (rt : Runtime) (e : Event) (addr : Address)
    → admit rt e ≡ some addr
    → rt.parse_ip e.src_ip ≡ some addr
unfolding admit
admit_parses rt e addr h = ground arith

module _ (rt : Runtime) (a : Attempt) (calm : IsCalm a) (e : Event) where
  publish-IsExact :
      (is_new : Bool) (s : Store)
      → ((b : Address) → count_of b s.ips ≡ rows_of rt b s.rows)
      → ((b : Address) → has_ip b s.ips ≡ any (is_from rt b) s.rows)
      → s.bus ++ payload rt.to_text e ∷ [] ≡ payloads rt s.rows
      → s.queue ++ (if is_new then ip_text e.src_ip ∷ [] else []) ≡ first_texts rt s.rows
      → IsExact rt (publish rt a e is_new s).1
  unfolding publish
  publish-IsExact true s c k b q =
      rw (calm.bus, publish, calm.queue)
        (record { counted = c; known = k; published = b; queued = q })
  publish-IsExact false s c k b q =
      rw (calm.bus, publish)
        (record { counted = c; known = k; published = b; queued = sym (append_nil s.queue) ∙ q })

module _ (rt : Runtime) (a : Attempt) (calm : IsCalm a) (e : Event) (addr : Address)
    (parsed : rt.parse_ip e.src_ip ≡ some addr) where
  from_lem : (b : Address) (row : Row) → row.event ≡ e → is_from rt b row ≡ same_address addr b
  from_lem b row same =
      ap
        (λ x. elim (rt.parse_ip x.src_ip) as (λ o. Bool) [
          | none ↦ false
          | some y ↦ same_address y b
        ])
        same
      ∙ ap (λ o. elim o as (λ o. Bool) [ none ↦ false | some y ↦ same_address y b ]) parsed

  first_lem :
      (row : Row) (rows : List Row)
      → row.event ≡ e
      → is_first rt row rows ≡ not (any (is_from rt addr) rows)
  first_lem row rows same =
      ap
        (λ x. elim (rt.parse_ip x.src_ip) as (λ o. Bool) [
          | none ↦ false
          | some y ↦ not (any (is_from rt y) rows)
        ])
        same
      ∙ ap (λ o. elim o as (λ o. Bool) [ none ↦ false | some y ↦ not (any (is_from rt y) rows) ])
          parsed

  insert-IsExact :
      (row : Row) (s : Store)
      → row.event ≡ e
      → IsExact rt s
      → IsExact rt (insert rt a e addr row s).1
  unfolding insert count
  insert-IsExact row s same h = elim (Option-cases a.insert_fault) [
    | inr (ex, bad) ↦ rw (bad, insert) h
    | inl well ↦ elim (Bool-cases (has_row row s.rows)) [
      | inl old ↦ rw (well, insert, old) h
      | inr new ↦
          let service = service_text e.service in
          let port = port_number e.dst_port in
          rw (well, insert, new, calm.upsert, count)
            (publish-IsExact rt a calm e (not (has_ip addr s.ips)) _
              (λ b.
                count_of-upsert b a.now addr service port s.ips
                ∙ ap₂ (λ t n. (if t then 1 else 0) + n) (sym (from_lem b row same)) (h.counted b))
              (λ b.
                has_ip-upsert b a.now addr service port s.ips
                ∙ ap₂ (λ t u. t || u) (sym (from_lem b row same)) (h.known b))
              (ap₂ (λ b x. b ++ payload rt.to_text x ∷ []) h.published (sym same))
              (ap₂ (λ q t. q ++ (if t then ip_text e.src_ip ∷ [] else [])) h.queued
                  (ap not (h.known addr) ∙ sym (first_lem row s.rows same))
                ∙ ap
                    (λ x.
                      first_texts rt s.rows
                      ++ (if is_first rt row s.rows then ip_text x.src_ip ∷ [] else []))
                    (sym same)))
    ]
  ]

  store_row-IsExact :
      (id : String) (pw raw : Result Ex Value) (s : Store)
      → IsExact rt s
      → IsExact rt (store_row rt a id e addr pw raw s).1
  unfolding store_row
  store_row-IsExact id (raise ex) raw s h = h
  store_row-IsExact id (ok pw) (raise ex) s h = h
  store_row-IsExact id (ok pw) (ok raw) s h = insert-IsExact (row_of rt a id e pw raw) s refl h

deliver-IsExact :
    (rt : Runtime) (a : Attempt) (e : Event) (id : String) (admitted : Option Address) (s : Store)
    → IsCalm a
    → admit rt e ≡ admitted
    → IsExact rt s
    → IsExact rt (deliver rt a id e admitted s).1
unfolding deliver write
deliver-IsExact rt a e id none s calm p h = h
deliver-IsExact rt a e id (some addr) s calm p h =
    store_row-IsExact rt a calm e addr (admit_parses rt e addr p) id (redact_password e.password)
      (redact_raw e.raw) s h

dispatch-IsExact :
    (rt : Runtime) (a : Attempt) (sensor : Sensor) (r : Value) (n : Result Ex (Option Event))
    (s : Store)
    → IsCalm a
    → IsExact rt s
    → IsExact rt (dispatch rt a sensor r n s).1
unfolding dispatch
dispatch-IsExact rt a sensor r (raise ex) s calm h = h
dispatch-IsExact rt a sensor r (ok none) s calm h = h
dispatch-IsExact rt a sensor r (ok (some e)) s calm h =
    deliver-IsExact rt a (prepared rt sensor r e) (rt.event_id sensor r)
      (admit rt (prepared rt sensor r e)) s calm refl h

-- While no call after the INSERT fails, the count of each address is the number of the stored rows whose
-- event is of that address, the bus holds the payloads of the stored events, each once and in the order
-- they were stored, and the queue each address once, as the first row about it spells it, in the order
-- in which they first appeared; a failing INSERT disturbs nothing of it. All this
-- if it held before.
pub handle-IsExact :
    (rt : Runtime) (a : Attempt) (sensor : Sensor) (r : Value) (s : Store)
    → IsCalm a
    → IsExact rt s
    → IsExact rt (handle rt a sensor r s).1
unfolding handle
handle-IsExact rt a sensor r s calm h =
    dispatch-IsExact rt a sensor r (normalize rt.to_text rt.fresh_id sensor r) s calm h
