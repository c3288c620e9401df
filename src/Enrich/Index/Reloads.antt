-- ===== src/Enrich/Index/Reloads.antt =====
-- The Feodo feed after a restart.
use getarp.Base.Exec.{ok}
use getarp.Base.{
  ℕ, none, or_assoc, or_comm, or_absorb, String, ◌==◌, eq_iff, str_refl, Bool, true, false, ◌||◌,
  some, List, [], ◌∷◌, map, elem, any, All, ◌≡◌, inl, inr, refl, ap, ◌∙◌, arith, Bool-cases,
  Option-cases, sym, ap₂,
}
use getarp.Json.{obj, end}
use getarp.Ingest.Source.{Address}
use getarp.Enrich.Blocklist.{parse}
use getarp.Enrich.Feeds.{
  Faults, store, FeedRow, Indicator, Codec, indicator_of, same_key, add_indicator, add_all, without,
}
use getarp.Enrich.Feeds.Replaces.{stored_rows, replaced, store_atomic}
use getarp.Enrich.Index.{
  Feed, stored, replace, feodo_download, not_empty, refresh_feodo, feodo_row, feodo_rows, load_rows,
  load_feodo,
}

-- an address that the library reads, and writes the same
abbrev pub IsCanonical : Codec → (Address → String) → String → Type 0
IsCanonical c show ip = (a : Address) × (c.parse_ip ip ≡ some a) × (show a ≡ ip)

-- no call to Postgres fails
pub record IsCalm (f : Faults) : Type 0 where
  pub acquire : f.acquire ≡ none
  pub statement : (k : ℕ) → f.statement k ≡ none
  pub commit : f.commit ≡ none

-- what the table holds of a source
abbrev held : (Address → String) → String → String → List Indicator → Bool
held show source ip table = elem ip (load_rows show source table)

held-without :
    (show : Address → String) (source ip : String) (table : List Indicator)
    → held show source ip (without source table) ≡ false
unfolding load_rows without
held-without show source ip [] = refl
held-without show source ip (i ∷ table) = elim (Bool-cases (i.source == source)) [
  | inl own ↦ rw own (held-without show source ip table)
  | inr other ↦ rw (other, other) (held-without show source ip table)
]

-- a row with the same key is found by the same address
held-same_key :
    (show : Address → String) (i : Indicator) (table : List Indicator)
    → any (same_key i) table ≡ true
    → held show i.source (show i.address) table ≡ true
unfolding load_rows
held-same_key show i [] h = absurd (ground arith)
held-same_key show i (j ∷ table) h = elim (Bool-cases (same_key i j)) [
  | inl same ↦
      let a : j.address ≡ i.address = ground arith in
      let s : j.source ≡ i.source = ground (arith, eq_iff i.source j.source) in
      rw (s, a, str_refl i.source, str_refl (show i.address)) refl
  | inr other ↦ ground (arith, held-same_key show i table)
]

held-add_indicator :
    (show : Address → String) (i : Indicator) (ip : String) (table : List Indicator)
    → held show i.source ip (add_indicator i table)
      ≡ (held show i.source ip table || show i.address == ip)
unfolding add_indicator load_rows
held-add_indicator show i ip table = elim (Bool-cases (any (same_key i) table)) [
  | inl there ↦ rw there (
      or_absorb (held show i.source ip table) (show i.address == ip) (λ same.
        ap (λ a. held show i.source a table) (sym ((eq_iff (show i.address) ip).0 same))
        ∙ held-same_key show i table there))
  | inr new ↦
      rw (new, str_refl i.source) (or_comm (show i.address == ip) (held show i.source ip table))
]

-- the addresses of rows
abbrev shown : (Address → String) → List Indicator → List String
shown show is = map (λ i. show i.address) is

held-add_all :
    (show : Address → String) (source ip : String) (is table : List Indicator)
    → All (λ i. i.source ≡ source) is
    → held show source ip (add_all is table)
      ≡ (held show source ip table || elem ip (shown show is))
unfolding add_all
held-add_all show source ip [] table h = or_comm false (held show source ip table)
held-add_all show source ip (i ∷ is) table h =
    let step : held show source ip (add_indicator i table)
        ≡ (held show source ip table || show i.address == ip) =
      rw (← h.0) (held-add_indicator show i ip table) in
    held-add_all show source ip is (add_indicator i table) h.1
    ∙ ap (λ b. b || elem ip (shown show is)) step
    ∙ or_assoc (held show source ip table) (show i.address == ip) (elem ip (shown show is))

indicator_of-source :
    (c : Codec) (source : String) (r : FeedRow) (i : Indicator)
    → indicator_of c source r ≡ some i
    → i.source ≡ source
unfolding indicator_of
indicator_of-source c source r i h = ground arith

indicator_of-address :
    (c : Codec) (source : String) (r : FeedRow) (a : Address) (m : String)
    → c.parse_ip r.indicator ≡ some a
    → c.dumps r.meta ≡ some m
    → (i : Indicator) × (indicator_of c source r ≡ some i) × (i.address ≡ a)
unfolding indicator_of
indicator_of-address c source r a m good fine = (
  record { source = source; address = a; kind = r.kind; category = r.category; meta = m },
  ground arith,
  refl,
)

stored-source :
    (c : Codec) (source : String) (rows : List FeedRow)
    → All (λ i. i.source ≡ source) (stored_rows c source rows)
unfolding stored_rows
stored-source c source [] = tt
stored-source c source (r ∷ rows) = elim (Option-cases (indicator_of c source r)) [
  | inl bad ↦ rw (bad, stored_rows) (stored-source c source rows)
  | inr (i, good) ↦
      rw (good, stored_rows) (indicator_of-source c source r i good, stored-source c source rows)
]

shown-stored :
    (c : Codec) (show : Address → String) (source m : String) (ips : List String)
    → c.dumps (obj end) ≡ some m
    → All (IsCanonical c show) ips
    → shown show (stored_rows c source (feodo_rows ips)) ≡ ips
unfolding stored_rows
shown-stored c show source m [] fine h = refl
shown-stored c show source m (ip ∷ ips) fine ((a, good, same), h) =
    let (i, e, at) = indicator_of-address c source (feodo_row ip) a m good fine in
    rw (e, stored_rows)
      (ap₂ (λ x xs. x ∷ xs) (ap show at ∙ same) (shown-stored c show source m ips fine h))

elem-reloaded :
    (c : Codec) (show : Address → String) (m : String) (ips : List String) (table : List Indicator)
    (ip : String)
    → c.dumps (obj end) ≡ some m
    → All (IsCanonical c show) ips
    → elem ip (load_feodo show (replaced c "feodo" (feodo_rows ips) table)).index ≡ elem ip ips
unfolding load_feodo replaced
elem-reloaded c show m ips table ip fine h =
    let is = stored_rows c "feodo" (feodo_rows ips) in
    held-add_all show "feodo" ip is (without "feodo" table)
      (stored-source c "feodo" (feodo_rows ips))
    ∙ ap (λ b. b || elem ip (shown show is)) (held-without show "feodo" ip table)
    ∙ ap (λ l. elem ip l) (shown-stored c show "feodo" m ips fine h)

-- the run of `_store` with which a refresh ends, where no call to Postgres fails
store_calm :
    (c : Codec) (chunk : ℕ) (f : Faults) (source : String) (rows : List FeedRow)
    (table : List Indicator)
    → IsCalm f
    → store c chunk f source rows table ≡ (ok tt, replaced c source rows table)
store_calm c chunk f source rows table calm = elim (store_atomic c chunk f source rows table) [
  | inr e ↦ e
  | inl (ex, e, inl bad) ↦ absurd (let q = calm.acquire in ground arith)
  | inl (ex, e, inr (inl bad)) ↦ absurd (let q = calm.commit in ground arith)
  | inl (ex, e, inr (inr (k, bad))) ↦ absurd (let q = calm.statement k in ground arith)
]

refreshed :
    (c : Codec) (chunk : ℕ) (faults : Faults) (ips : List String) (x : String) (xs : List String)
    (f : Feed (List String))
    → IsCalm faults
    → ips ≡ x ∷ xs
    → replace c chunk faults "feodo" feodo_rows (not_empty ips) f
      ≡ record { index = ips; table = replaced c "feodo" (feodo_rows ips) f.table }
unfolding replace
refreshed c chunk faults [] x xs f calm e = absurd (ground arith)
refreshed c chunk faults (y ∷ ys) x xs f calm e =
    ap (stored (y ∷ ys) f) (store_calm c chunk faults "feodo" (feodo_rows (y ∷ ys)) f.table calm)

-- A refresh of the Feodo feed whose download succeeds and names an address, and in which no call to
-- Postgres fails, makes the addresses that were downloaded the index, and a restart after it reads the
-- same addresses and no others back from the database, whatever rows that had before, if the library
-- writes each of them as the feed does.
pub refresh_feodo-load_feodo :
    (c : Codec) (chunk : ℕ) (faults : Faults) (show : Address → String) (m text x : String)
    (xs : List String) (f : Feed (List String)) (ip : String)
    → IsCalm faults
    → c.dumps (obj end) ≡ some m
    → parse text ≡ x ∷ xs
    → All (IsCanonical c show) (parse text)
    → let f' = refresh_feodo c chunk faults (ok text) f in
      (f'.index ≡ parse text) × (elem ip (load_feodo show f'.table).index ≡ elem ip (parse text))
unfolding refresh_feodo feodo_download
refresh_feodo-load_feodo c chunk faults show m text x xs f ip calm fine some_ip h =
    let e = refreshed c chunk faults (parse text) x xs f calm some_ip in
    (
      ap (λ g. g.index) e,
      ap (λ g. elem ip (load_feodo show g.table).index) e
          ∙ elem-reloaded c show m (parse text) f.table ip fine h,
    )
