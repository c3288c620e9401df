-- ===== src/Api/Evidence/Views.antt =====
-- What a visitor cannot see, and what a spreadsheet cannot run.
use getarp.Base.{
  String, ◌==◌, eq_iff, str_refl, false, none, List, [], ◌∷◌, elem, text_append, All, if◌then◌else◌,
  ◌≡◌, inl, inr, refl, arith, Bool-cases,
}
use getarp.Json.{Value, Fields, null, bool, int, float, str, arr, obj, end, field, find}
use getarp.Api.Evidence.{
  anon_evidence_keys, drop_keys, anon_evidence, is_formula, csv_cell, csv_row,
}

find-drop_keys :
    (ks : List String) (fs : Fields) (k : String)
    → find (drop_keys ks fs) k ≡ (if elem k ks then none else find fs k)
unfolding find drop_keys
find-drop_keys ks end k = ground arith
find-drop_keys ks (field j v fs) k = elim (Bool-cases (j == k)) [
  | inl same ↦ rw ((eq_iff j k).0 same) (ground (arith, find-drop_keys ks fs k, str_refl k))
  | inr other ↦ ground (arith, find-drop_keys ks fs k)
]

-- What an anonymous visitor is shown of the evidence of an attack has no command, no user names and no
-- credentials, and every other key with its value.
pub find-anon_evidence :
    (fs : Fields) (k : String)
    → (gs : Fields) × (anon_evidence (obj fs) ≡ obj gs)
      × (find gs k ≡ (if elem k anon_evidence_keys then none else find fs k))
unfolding anon_evidence
find-anon_evidence fs k =
    (drop_keys anon_evidence_keys fs, refl, find-drop_keys anon_evidence_keys fs k)

-- a cell that no spreadsheet takes for a formula
abbrev pub IsInert : Value → Type 0
IsInert v = elim v [ str s ↦ is_formula s ≡ false | _ ↦ Unit ]

csv_cell-IsInert : (v : Value) → IsInert (csv_cell v)
unfolding text_append
csv_cell-IsInert null = tt
csv_cell-IsInert (bool b) = tt
csv_cell-IsInert (int n) = tt
csv_cell-IsInert (float n s) = tt
csv_cell-IsInert (str s) = elim (Bool-cases (is_formula s)) [
  | inl yes' ↦ rw yes' refl
  | inr no' ↦ rw no' no'
]
csv_cell-IsInert (arr vs) = tt
csv_cell-IsInert (obj fs) = tt

-- No text in a row of a CSV report begins like a formula, whatever the attackers sent.
pub csv_row-IsInert : (vs : List Value) → All IsInert (csv_row vs)
unfolding csv_row
csv_row-IsInert [] = tt
csv_row-IsInert (v ∷ vs) = (csv_cell-IsInert v, csv_row-IsInert vs)
