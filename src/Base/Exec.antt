-- ===== src/Base/Exec.antt =====
-- Python code that changes a state and may raise: what was written before a raise stays written, so
-- the state comes back beside the exception too.
use mathlib.Core.Path.{◌≡◌, refl}

pub data Result {ℓ κ} (E : Type ℓ) (A : Type κ) : Type (ℓ ⊔ κ) where
  ok : A → Result E A
  raise : E → Result E A

-- a pure computation that may raise
infixl 5 ◌>>=◌
abbrev pub ◌>>=◌ : {E A B : Type 0} → Result E A → (A → Result E B) → Result E B
ok a >>= f = f a
raise e >>= f = raise e

-- a successful sequence: both steps succeeded
pub >>=-eq-ok :
    {E A B : Type 0} (run : Result E A) (next : A → Result E B) {out : B}
    → (run >>= next) ≡ ok out
    → (mid : A) × (run ≡ ok mid) × (next mid ≡ ok out)
>>=-eq-ok (ok mid) next h = (mid, refl, h)
>>=-eq-ok (raise e) next h = cc

pub ok-injective : {E A : Type 0} {a b : A} → ◌≡◌ {A = Result E A} (ok a) (ok b) → a ≡ b
ok-injective h = cc
