-- ===== src/Enrich/Geo/Whole.antt =====
-- What a bad download leaves of the database.
use getarp.Base.Exec.{Result, ok, raise}
use getarp.Base.{
  ◌≤◌, String, Bool, true, false, ◌||◌, some, is_some, ltb, ◌≡◌, ◌⊎◌, inl, inr, refl, arith,
  Bool-cases, Option-cases,
}
use getarp.Enrich.Geo.{
  Database, State, min_bytes, open_file, Refresh, is_fresh, install, renew, refresh_lite,
}

-- the file is what it was, or a whole download
abbrev pub IsWhole : Refresh → State → State → Type 0
IsWhole r s t =
    (t.file ≡ s.file)
    ⊎ ((d : Database) × (r.download ≡ ok d) × (min_bytes ≤ d.size) × (t.file ≡ some d))

abbrev Safe : Refresh → State → State → Type 0
Safe r s t = IsWhole r s t × (is_some s.reader ≡ true → is_some t.reader ≡ true)

open_file_safe :
    (s : State)
    → ((open_file s).file ≡ s.file)
      × (is_some s.reader ≡ true → is_some (open_file s).reader ≡ true)
unfolding open_file
open_file_safe s = elim (Option-cases s.file) [
  | inl none' ↦ ground arith
  | inr (d, e) ↦ elim (Option-cases d.opens) [
    | inl bad ↦ ground arith
    | inr (r, good) ↦ ground arith
  ]
]

install-Safe :
    (r : Refresh) (d : Database) (s : State) → r.download ≡ ok d → Safe r s (install r d s)
unfolding install
install-Safe r d s got = elim (Bool-cases (ltb d.size min_bytes || r.replace_fails)) [
  | inl bad ↦ rw bad (inl refl, λ h. h)
  | inr good ↦
      let (same, kept) = open_file_safe (record s { file = some d }) in
      rw good (inr (d, got, ground arith, same), kept)
]

renew-Safe :
    (r : Refresh) (download : Result String Database) (s : State)
    → r.download ≡ download
    → Safe r s (renew r download s)
unfolding renew
renew-Safe r (raise ex) s got = (inl refl, λ h. h)
renew-Safe r (ok d) s got = install-Safe r d s got

refresh-Safe : (token : Bool) (r : Refresh) (s : State) → Safe r s (refresh_lite token r s)
unfolding refresh_lite
refresh-Safe false r s = (inl refl, λ h. h)
refresh-Safe true r s = elim (Bool-cases (is_fresh r s.file)) [
  | inr old ↦ rw old (renew-Safe r r.download s refl)
  | inl young ↦ elim (Bool-cases (is_some s.reader)) [
    | inl open' ↦ rw (young, open') (inl refl, λ h. open')
    | inr shut ↦ let (same, kept) = open_file_safe s in rw (young, shut) (inl same, λ h. cc)
  ]
]

-- A refresh of IPinfo Lite that fails at whatever point, or that downloads less than a megabyte, leaves
-- the file as it was; else the file is what was downloaded. And a feed that could answer still can.
pub refresh-IsWhole :
    (token : Bool) (r : Refresh) (s : State)
    → IsWhole r s (refresh_lite token r s)
      × ((is_some s.reader ≡ false) ⊎ (is_some (refresh_lite token r s).reader ≡ true))
unfolding refresh_lite
refresh-IsWhole token r s =
    let (whole, kept) = refresh-Safe token r s in
    (whole, elim (Bool-cases (is_some s.reader)) [ inl h ↦ inr (kept h) | inr h ↦ inl h ])
