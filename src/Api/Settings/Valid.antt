-- ===== src/Api/Settings/Valid.antt =====
-- What the table of settings can come to hold.
use getarp.Base.Dict.{Dict, get, put, get-put}
use getarp.Base.Exec.{ok, raise}
use getarp.Base.{
  String, ◌==◌, eq_iff, Bool, true, false, ◌&&◌, some, List, [], ◌∷◌, ◌++◌, elem, ◌≡◌, ◌⊎◌, inl,
  inr, refl, sym, arith, Bool-cases, if◌then◌else◌,
}
use getarp.Json.{Value}
use getarp.Api.Settings.{int_settings, str_settings, is_valid, put_setting, refused}

-- every value of the table passes the validation of its key
abbrev pub IsValidTable : Dict Value → Type 0
IsValidTable table = (key : String) (v : Value) → get table key ≡ some v → is_valid key v ≡ true

-- requests one after the other
unfoldable pub put_settings : List (String × Value) → Dict Value → Dict Value
put_settings [] table = table
put_settings ((k, v) ∷ rs) table = put_settings rs (put_setting k v table).1

get-put_inv :
    (k : String) (v : Value) (table : Dict Value) (key : String) (w : Value)
    → get (put table k v) key ≡ some w
    → ((key ≡ k) × (v ≡ w)) ⊎ (get table key ≡ some w)
get-put_inv k v table key w g = elim (Bool-cases (key == k)) [
  | inl same ↦ inl ((eq_iff key k).0 same, ground (arith, get-put k v table key))
  | inr other ↦ inr (ground (arith, get-put k v table key))
]

after-IsValidTable :
    (k : String) (v : Value) (table : Dict Value) (accept : Bool)
    → (accept ≡ true → is_valid k v ≡ true)
    → IsValidTable table
    → IsValidTable (if accept then put table k v else table)
after-IsValidTable k v table true t h key w g = elim (get-put_inv k v table key w g) [
  | inl (same, e) ↦ rw (same, sym e) (t refl)
  | inr old ↦ h key w old
]
after-IsValidTable k v table false t h key w g = h key w g

table_if :
    {A B : Type 0} (accept : Bool) (a b : A) (s t : B)
    → (if◌then◌else◌ {A = A × B} accept (a, s) (b, t)).1 ≡ (if accept then s else t)
table_if true a b s t = refl
table_if false a b s t = refl

put_setting-IsValidTable :
    (k : String) (v : Value) (table : Dict Value)
    → IsValidTable table
    → IsValidTable (put_setting k v table).1
unfolding put_setting
put_setting-IsValidTable k v table h =
    let accept = elem k (int_settings ++ str_settings) && is_valid k v in
    rw (table_if accept (ok tt) (raise refused) (put table k v) table)
      (after-IsValidTable k v table accept (λ t. ground arith) h)

-- Whatever is put, and in whatever order, every value in the table is one that the validation of its
-- key accepts, if that held at the start.
pub put_settings-IsValidTable :
    (rs : List (String × Value)) (table : Dict Value)
    → IsValidTable table
    → IsValidTable (put_settings rs table)
unfolding put_settings
put_settings-IsValidTable [] table h = h
put_settings-IsValidTable ((k, v) ∷ rs) table h =
    put_settings-IsValidTable rs (put_setting k v table).1 (put_setting-IsValidTable k v table h)
