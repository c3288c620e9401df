-- ===== src/Base/Chars.antt =====
-- Texts without a given character.
use Prim.Native.Char.{code}
use Prim.Native.Nat.{ℕ}
use Prim.Native.String.{String}
use mathlib.Core.Path.{◌≡◌, refl}
use mathlib.Core.Logic.{◌≢◌, inl, inr}
use mathlib.Core.Bool.{false}
use native.Mathlib.Omega.{arith}
use getarp.Base.Tests.{eqb, Bool-cases}
use getarp.Base.Text.{has_char, replace_char, text_append}

-- no character of the text has code `n`
abbrev pub Lacks : ℕ → String → Type 0
Lacks n String.[] = Unit
Lacks n (String.◌∷◌ c s) = (code c ≢ n) × Lacks n s

pub text_append-Lacks : (n : ℕ) (s t : String) → Lacks n s → Lacks n t → Lacks n (text_append s t)
unfolding text_append
text_append-Lacks n String.[] t hs ht = ht
text_append-Lacks n (String.◌∷◌ c s) t hs ht = (hs.0, text_append-Lacks n s t hs.1 ht)

-- Replacing a character by a text without it leaves none.
pub replace_self-Lacks : (n : ℕ) (t s : String) → Lacks n t → Lacks n (replace_char n t s)
unfolding replace_char
replace_self-Lacks n t String.[] h = tt
replace_self-Lacks n t (String.◌∷◌ c s) h = elim (Bool-cases (eqb (code c) n)) [
  | inl e ↦ rw e (text_append-Lacks n t (replace_char n t s) h (replace_self-Lacks n t s h))
  | inr e ↦ rw e (ground arith, replace_self-Lacks n t s h)
]

-- Replacing another character brings none in.
pub replace-Lacks : (m n : ℕ) (t s : String) → Lacks n t → Lacks n s → Lacks n (replace_char m t s)
unfolding replace_char
replace-Lacks m n t String.[] ht hs = tt
replace-Lacks m n t (String.◌∷◌ c s) ht hs = elim (Bool-cases (eqb (code c) m)) [
  | inl e ↦ rw e (text_append-Lacks n t (replace_char m t s) ht (replace-Lacks m n t s ht hs.1))
  | inr e ↦ rw e (hs.0, replace-Lacks m n t s ht hs.1)
]

pub Lacks-of_not_has : (n : ℕ) (s : String) → has_char n s ≡ false → Lacks n s
unfolding has_char
Lacks-of_not_has n String.[] h = tt
Lacks-of_not_has n (String.◌∷◌ c s) h = (ground arith, Lacks-of_not_has n s (ground arith))

pub not_has-of_Lacks : (n : ℕ) (s : String) → Lacks n s → has_char n s ≡ false
unfolding has_char
not_has-of_Lacks n String.[] h = refl
not_has-of_Lacks n (String.◌∷◌ c s) h = ground (arith, not_has-of_Lacks n s h.1)
