-- ===== src/Base/Text.antt =====
-- What the program uses of Python's `str`: white space, `strip`, `replace` of one character, `upper`,
-- `split` at one character, prefixes. A text is a list of characters, each known by its code point.
use Prim.Native.Nat.{ℕ, zero, suc}
use Prim.Native.Char.{Char, code}
use Prim.Native.String.{String, compare}
use Prim.Native.Nat.{lt, eq, gt}
use mathlib.Core.Bool.{Bool, true, false, ◌||◌, ◌&&◌}
use mathlib.Core.List.{List, [], ◌∷◌}
use getarp.Base.Tests.{leb, eqb, if◌then◌else◌}

abbrev pub codes : String → List ℕ
codes String.[] = []
codes (String.◌∷◌ c s) = code c ∷ codes s

-- `len(s)`
abbrev pub text_length : String → ℕ
text_length String.[] = 0
text_length (String.◌∷◌ c s) = suc (text_length s)

-- the characters that `str.strip` removes
abbrev pub is_space : ℕ → Bool
is_space n =
    (leb 9 n && leb n 13)
    || (leb 28 n && leb n 32)
    || eqb n 133
    || eqb n 160
    || eqb n 5760
    || (leb 8192 n && leb n 8202)
    || eqb n 8232
    || eqb n 8233
    || eqb n 8239
    || eqb n 8287
    || eqb n 12288

abbrev pub is_empty : String → Bool
is_empty String.[] = true
is_empty (String.◌∷◌ c s) = false

-- `s.lstrip()`
unfoldable pub lstrip : String → String
lstrip String.[] = String.[]
lstrip (String.◌∷◌ c s) = let rest = lstrip s in if is_space (code c) then rest else String.◌∷◌ c s

-- `s.rstrip()`
unfoldable pub rstrip : String → String
rstrip String.[] = String.[]
rstrip (String.◌∷◌ c s) =
    let rest = rstrip s in
    if is_space (code c) && is_empty rest then String.[] else String.◌∷◌ c rest

-- `s.strip()`
unfoldable pub strip : String → String
unfolding lstrip rstrip
strip s = lstrip (rstrip s)

-- `s + t`
unfoldable pub text_append : String → String → String
text_append String.[] t = t
text_append (String.◌∷◌ c s) t = String.◌∷◌ c (text_append s t)

-- `s.replace(c, t)` for the character with code `c`
unfoldable pub replace_char : ℕ → String → String → String
unfolding text_append
replace_char n t String.[] = String.[]
replace_char n t (String.◌∷◌ c s) =
    let rest = replace_char n t s in
    if eqb (code c) n then text_append t rest else String.◌∷◌ c rest

-- `c in s` for the character with code `c`
unfoldable pub has_char : ℕ → String → Bool
has_char n String.[] = false
has_char n (String.◌∷◌ c s) = eqb (code c) n || has_char n s

-- `s[n:]`
unfoldable pub text_drop : ℕ → String → String
text_drop zero s = s
text_drop (suc n) String.[] = String.[]
text_drop (suc n) (String.◌∷◌ c s) = text_drop n s

-- `s[:n]`
unfoldable pub text_take : ℕ → String → String
text_take zero s = String.[]
text_take (suc n) String.[] = String.[]
text_take (suc n) (String.◌∷◌ c s) = String.◌∷◌ c (text_take n s)

-- the first piece of `s.split(c)`
unfoldable pub before_char : ℕ → String → String
before_char n String.[] = String.[]
before_char n (String.◌∷◌ c s) =
    let rest = before_char n s in if eqb (code c) n then String.[] else String.◌∷◌ c rest

-- one more character in front of the first piece
abbrev pub grow_first : Char → List String → List String
grow_first c [] = String.◌∷◌ c String.[] ∷ []
grow_first c (s ∷ ss) = String.◌∷◌ c s ∷ ss

-- `s.split(c)`
unfoldable pub split_char : ℕ → String → List String
split_char n String.[] = String.[] ∷ []
split_char n (String.◌∷◌ c s) =
    let rest = split_char n s in if eqb (code c) n then String.[] ∷ rest else grow_first c rest

-- a text added to a sorted list without repetition
unfoldable pub insert_text : String → List String → List String
insert_text s [] = s ∷ []
insert_text s (t ∷ ts) =
    let rest = insert_text s ts in
    elim (compare s t) [ lt ↦ s ∷ t ∷ ts | eq ↦ t ∷ ts | gt ↦ t ∷ rest ]

-- the characters that `str.splitlines` breaks at
abbrev pub is_break : ℕ → Bool
is_break n =
    (leb 10 n && leb n 13) || (leb 28 n && leb n 30) || eqb n 133 || eqb n 8232 || eqb n 8233

-- The pieces of `s` between the characters that `p` holds of. Between "\r" and "\n" this has an empty
-- line that `splitlines` has not, as it has one after a last break.
unfoldable pub split_where : (ℕ → Bool) → String → List String
split_where p String.[] = String.[] ∷ []
split_where p (String.◌∷◌ c s) =
    let rest = split_where p s in if p (code c) then String.[] ∷ rest else grow_first c rest

-- what stands before the first white space; `s.split()[0]` for a stripped text
unfoldable pub first_word : String → String
first_word String.[] = String.[]
first_word (String.◌∷◌ c s) =
    let rest = first_word s in if is_space (code c) then String.[] else String.◌∷◌ c rest
