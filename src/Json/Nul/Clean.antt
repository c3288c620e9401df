-- ===== src/Json/Nul/Clean.antt =====
-- The texts and keys of what `_strip_nulls` returns.
use Prim.Native.Char.{code}
use getarp.Base.{
  Lacks, replace_self-Lacks, Lacks-of_not_has, not_has-of_Lacks, ℕ, String, false, ◌≡◌, refl, sym,
  arith, ◌==◌, eqb, codes, map, has_char, replace_char, if◌then◌else◌, Bool-cases, inl, inr,
}
use getarp.Json.Defs.{
  Value, Items, Fields, null, bool, int, float, str, arr, obj, nil, cons, end, field,
}
use getarp.Json.Access.{put}
use getarp.Json.Nul.{nul_replacement, strip_text, strip_nulls, strip_items, strip_fields}

-- no text and no key of the value, at any depth, holds NUL
abbrev mutual
  pub IsStorable : Value → Type 0
  IsStorable null = Unit
  IsStorable (bool b) = Unit
  IsStorable (int n) = Unit
  IsStorable (float n s) = Unit
  IsStorable (str s) = Lacks 0 s
  IsStorable (arr xs) = AreStorable xs
  IsStorable (obj fs) = HasStorable fs

  pub AreStorable : Items → Type 0
  AreStorable nil = Unit
  AreStorable (cons x xs) = IsStorable x × AreStorable xs

  pub HasStorable : Fields → Type 0
  HasStorable end = Unit
  HasStorable (field k v fs) = Lacks 0 k × IsStorable v × HasStorable fs

strip_text-Lacks : (s : String) → Lacks 0 (strip_text s)
unfolding strip_text
strip_text-Lacks s = elim (Bool-cases (has_char 0 s)) [
  | inl e ↦ rw e (replace_self-Lacks 0 nul_replacement s (omega arith, tt))
  | inr e ↦ rw e (Lacks-of_not_has 0 s e)
]

pub strip_text_clean : (s : String) → Lacks 0 s → strip_text s ≡ s
unfolding strip_text
strip_text_clean s h = rw (not_has-of_Lacks 0 s h)

put-HasStorable :
    (fs : Fields) (k : String) (v : Value)
    → HasStorable fs
    → Lacks 0 k
    → IsStorable v
    → HasStorable (put fs k v)
unfolding put
put-HasStorable end k v h hk hv = (hk, hv, tt)
put-HasStorable (field j w fs) k v h hk hv = elim (Bool-cases (j == k)) [
  | inl e ↦ rw e (h.0, hv, h.2)
  | inr e ↦ rw e (h.0, h.1, put-HasStorable fs k v h.2 hk hv)
]

mutual
  unfolding strip_nulls

  pub strip_nulls-clean : (v : Value) → IsStorable (strip_nulls v)
  strip_nulls-clean null = tt
  strip_nulls-clean (bool b) = tt
  strip_nulls-clean (int n) = tt
  strip_nulls-clean (float n s) = tt
  strip_nulls-clean (str s) = strip_text-Lacks s
  strip_nulls-clean (arr xs) = items-clean xs
  strip_nulls-clean (obj fs) = fields-clean fs end tt

  pub items-clean : (xs : Items) → AreStorable (strip_items xs)
  items-clean nil = tt
  items-clean (cons x xs) = (strip_nulls-clean x, items-clean xs)

  pub fields-clean : (fs acc : Fields) → HasStorable acc → HasStorable (strip_fields fs acc)
  fields-clean end acc h = h
  fields-clean (field k v fs) acc h = fields-clean fs (put acc (strip_text k) (strip_nulls v)) (
      put-HasStorable acc (strip_text k) (strip_nulls v) h (strip_text-Lacks k)
        (strip_nulls-clean v))

-- Whatever the sensors send, the sanitized value holds no NUL in any text or key, at any depth.
pub strip_nulls-IsStorable : (v : Value) → IsStorable (strip_nulls v)
strip_nulls-IsStorable v = strip_nulls-clean v

pub replacement_code : ℕ → ℕ
replacement_code n = if eqb n 0 then 0xfffd else n

codes-replace :
    (s : String) → codes (replace_char 0 nul_replacement s) ≡ map replacement_code (codes s)
unfolding replace_char replacement_code
codes-replace String.[] = refl
codes-replace (String.◌∷◌ c s) = elim (Bool-cases (eqb (code c) 0)) [
  | inl e ↦ rw (e, codes-replace s)
  | inr e ↦ rw (e, codes-replace s)
]

map-clean : (s : String) → has_char 0 s ≡ false → map replacement_code (codes s) ≡ codes s
unfolding has_char replacement_code
map-clean String.[] h = refl
map-clean (String.◌∷◌ c s) h = ground (arith, map-clean s)

-- Sanitizing a text keeps its length and every character but NUL, which becomes U+FFFD.
pub codes-strip_text : (s : String) → codes (strip_text s) ≡ map replacement_code (codes s)
unfolding strip_text
codes-strip_text s = elim (Bool-cases (has_char 0 s)) [
  | inl e ↦ rw e (codes-replace s)
  | inr e ↦ rw e (sym (map-clean s e))
]
