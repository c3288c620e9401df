-- ===== src/Ingest/Handle/Keeps.antt =====
-- The invariants of the store, kept by `_handle` at every failure.
use getarp.Base.Exec.{Result, ok, raise}
use getarp.Base.{
  ◌+◌, ◌≤◌, String, Bool, not, Option, none, some, List, [], ◌∷◌, ◌++◌, ◌≡◌, arith, All, length,
  length-append, if◌then◌else◌, Bool-cases, Option-cases, inl, inr,
}
use getarp.Json.{Value}
use getarp.Retry.{Ex}
use getarp.Ingest.Event.{Event, IsStorableEvent, sanitize-IsStorableEvent}
use getarp.Ingest.Normalize.{Sensor, normalize}
use getarp.Ingest.Source.{Address}
use getarp.Ingest.Redact.{redact_password, redact_raw}
use getarp.Ingest.Store.{Row, Store, has_row, has_ip, service_text, port_number}
use getarp.Ingest.Store.Counts.{
  total_events, total-upsert, length-upsert, IsCapped, upsert_ip-IsCapped,
}
use getarp.Base.Int.{ℤ}
use getarp.Ingest.Handle.Replay.{row_of}
use getarp.Ingest.Handle.{
  Runtime, Attempt, publish, count, insert, store_row, write, admit, prepared, deliver, dispatch,
  handle,
}

-- The counts of the store: a row is counted at most once, an event is published at most once for each
-- count, an address is queued for enrichment at most once for each row of `ips`, and the arrays of a
-- row keep to their caps. The rows hold nothing that Postgres refuses.
pub record IsSound (s : Store) : Type 0 where
  pub counted : total_events s.ips ≤ length s.rows
  pub published : length s.bus ≤ total_events s.ips
  pub queued : length s.queue ≤ length s.ips
  pub capped : All IsCapped s.ips
  pub storable : All (λ row. IsStorableEvent row.event) s.rows

-- The invariant before the message is sent: it is owed, with its place in the queue if the address is
-- new.
record IsOwed (is_new : Bool) (s : Store) : Type 0 where
  counted : total_events s.ips ≤ length s.rows
  published : length s.bus + 1 ≤ total_events s.ips
  queued : length s.queue + (if is_new then 1 else 0) ≤ length s.ips
  capped : All IsCapped s.ips
  storable : All (λ row. IsStorableEvent row.event) s.rows

-- the store after the INSERT: one row more than the counts know of
record IsAhead (s : Store) : Type 0 where
  counted : total_events s.ips + 1 ≤ length s.rows
  published : length s.bus ≤ total_events s.ips
  queued : length s.queue ≤ length s.ips
  capped : All IsCapped s.ips
  storable : All (λ row. IsStorableEvent row.event) s.rows

length_snoc {ℓ} : {A : Type ℓ} (xs : List A) (x : A) → length (xs ++ x ∷ []) ≡ length xs + 1
length_snoc xs x = omega (arith, length-append xs (x ∷ []))

module _ (rt : Runtime) (a : Attempt) (e : Event) where
  publish-IsSound :
      (is_new : Bool) (s : Store) → IsOwed is_new s → IsSound (publish rt a e is_new s).1
  unfolding publish
  publish-IsSound is_new s h = elim (Option-cases a.bus_fault) [
    | inr (ex, bad) ↦
        rw (bad, publish)
          (record {
            counted = h.counted;
            published = omega arith;
            queued = omega arith;
            capped = h.capped;
            storable = h.storable;
          })
    | inl sent ↦ elim (Bool-cases is_new) [
      | inr old ↦
          rw (sent, publish, old)
            (record {
              counted = h.counted;
              published = rw length_snoc h.published;
              queued = omega arith;
              capped = h.capped;
              storable = h.storable;
            })
      | inl new ↦ elim (Option-cases a.queue_fault) [
        | inr (ex, bad) ↦
            rw (sent, publish, new, bad)
              (record {
                counted = h.counted;
                published = rw length_snoc h.published;
                queued = omega arith;
                capped = h.capped;
                storable = h.storable;
              })
        | inl queued ↦
            rw (sent, publish, new, queued)
              (record {
                counted = h.counted;
                published = rw length_snoc h.published;
                queued = rw length_snoc (rw new at h.queued);
                capped = h.capped;
                storable = h.storable;
              })
      ]
    ]
  ]

  count-IsSound : (addr : Address) (s : Store) → IsAhead s → IsSound (count rt a e addr s).1
  unfolding count
  count-IsSound addr s h = elim (Option-cases a.upsert_fault) [
    | inr (ex, bad) ↦
        rw (bad, count)
          (record {
            counted = omega arith;
            published = h.published;
            queued = h.queued;
            capped = h.capped;
            storable = h.storable;
          })
    | inl well ↦
        rw (well, count)
          (publish-IsSound (not (has_ip addr s.ips)) _ (record {
            counted = rw total-upsert h.counted;
            published = rw total-upsert (omega arith);
            queued = ground (arith, length-upsert a.now addr service port s.ips, h.queued);
            capped = upsert_ip-IsCapped a.now addr service port s.ips h.capped;
            storable = h.storable;
          }))
  ]
    where
      service : String
      service = service_text e.service

      port : Option ℤ
      port = port_number e.dst_port

  insert-IsSound :
      (addr : Address) (row : Row) (s : Store)
      → IsStorableEvent row.event
      → IsSound s
      → IsSound (insert rt a e addr row s).1
  unfolding insert
  insert-IsSound addr row s clean h = elim (Option-cases a.insert_fault) [
    | inr (ex, bad) ↦ rw (bad, insert) h
    | inl well ↦ elim (Bool-cases (has_row row s.rows)) [
      | inl old ↦ rw (well, insert, old) h
      | inr new ↦
          rw (well, insert, new)
            (count-IsSound addr (record s { rows = row ∷ s.rows })
              (record {
                counted = omega arith;
                published = h.published;
                queued = h.queued;
                capped = h.capped;
                storable = (clean, h.storable);
              }))
    ]
  ]

  store_row-IsSound :
      (id : String) (addr : Address) (pw raw : Result Ex Value) (s : Store)
      → IsStorableEvent e
      → IsSound s
      → IsSound (store_row rt a id e addr pw raw s).1
  unfolding store_row
  store_row-IsSound id addr (raise ex) raw s clean h = h
  store_row-IsSound id addr (ok pw) (raise ex) s clean h = h
  store_row-IsSound id addr (ok pw) (ok raw) s clean h =
      insert-IsSound addr (row_of rt a id e pw raw) s clean h

  deliver-IsSound :
      (id : String) (admitted : Option Address) (s : Store)
      → IsStorableEvent e
      → IsSound s
      → IsSound (deliver rt a id e admitted s).1
  unfolding deliver write
  deliver-IsSound id none s clean h = h
  deliver-IsSound id (some addr) s clean h =
      store_row-IsSound id addr (redact_password e.password) (redact_raw e.raw) s clean h

dispatch-IsSound :
    (rt : Runtime) (a : Attempt) (sensor : Sensor) (r : Value) (n : Result Ex (Option Event))
    (s : Store)
    → IsSound s
    → IsSound (dispatch rt a sensor r n s).1
unfolding dispatch
dispatch-IsSound rt a sensor r (raise ex) s h = h
dispatch-IsSound rt a sensor r (ok none) s h = h
dispatch-IsSound rt a sensor r (ok (some e)) s h =
    deliver-IsSound rt a (prepared rt sensor r e) (rt.event_id sensor r)
      (admit rt (prepared rt sensor r e)) s (sanitize-IsStorableEvent _) h

-- Whatever the record and whichever calls fail, handling it keeps the store sound.
pub handle-IsSound :
    (rt : Runtime) (a : Attempt) (sensor : Sensor) (r : Value) (s : Store)
    → IsSound s
    → IsSound (handle rt a sensor r s).1
unfolding handle
handle-IsSound rt a sensor r s h =
    dispatch-IsSound rt a sensor r (normalize rt.to_text rt.fresh_id sensor r) s h
