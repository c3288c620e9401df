-- ===== src/Api/Evidence.antt =====
-- What api/routers/data.py shows anonymous visitors of the evidence of an attack, and the cells of its
-- CSV reports.
pub mod Views
use Prim.Native.Char.{code}
use getarp.Base.{
  ℕ, String, ◌==◌, Bool, true, false, ◌||◌, Option, none, some, List, [], ◌∷◌, map, eqb, elem,
  text_append, if◌then◌else◌,
}
use getarp.Json.{
  Value, Items, Fields, null, bool, int, float, str, arr, obj, nil, cons, end, field, find, put,
}

-- `_ANON_EVIDENCE_KEYS`
abbrev pub anon_evidence_keys : List String
anon_evidence_keys = "command" ∷ "sample_usernames" ∷ "sample_creds" ∷ []

unfoldable pub drop_keys : List String → Fields → Fields
drop_keys ks end = end
drop_keys ks (field k v fs) =
    let rest = drop_keys ks fs in if elem k ks then rest else field k v rest

-- `_anon_evidence`
unfoldable pub anon_evidence : Value → Value
anon_evidence (obj fs) = obj (drop_keys anon_evidence_keys fs)
anon_evidence v = v

-- `_CSV_FORMULA_PREFIXES`: = + - @, tab and carriage return
abbrev pub is_formula_prefix : ℕ → Bool
is_formula_prefix n = eqb n 61 || eqb n 43 || eqb n 45 || eqb n 64 || eqb n 9 || eqb n 13

-- `v[:1] in _CSV_FORMULA_PREFIXES`
abbrev pub is_formula : String → Bool
is_formula String.[] = false
is_formula (String.◌∷◌ c s) = is_formula_prefix (code c)

abbrev pub csv_cell : Value → Value
csv_cell (str s) = if is_formula s then str (text_append "'" s) else str s
csv_cell v = v

-- `_csv_row`
unfoldable pub csv_row : List Value → List Value
csv_row vs = map csv_cell vs
