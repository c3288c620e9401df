-- ===== src/Decoy/Latin.antt =====
-- Texts decoded from bytes as Latin-1, so every character has a code below 256.
use Prim.Native.Char.{code}
use getarp.Base.{
  ℕ, ◌+◌, ◌-◌, String, Bool, true, false, ◌&&◌, ◌||◌, not, Option, none, some, List, [], ◌∷◌, eqb,
  leb, codes, is_space, is_empty, text_drop, grow_first, if◌then◌else◌,
}

-- `upper` of a character: "ß" has two, "µ" and "ÿ" leave Latin-1
abbrev pub upper_code : ℕ → List ℕ
upper_code n =
    if leb 97 n && leb n 122
    then (n - 32) ∷ []
    else if eqb n 223
    then 83 ∷ 83 ∷ []
    else if eqb n 181
    then 924 ∷ []
    else if eqb n 255
    then 376 ∷ []
    else if leb 224 n && not (eqb n 247)
    then (n - 32) ∷ []
    else n ∷ []

abbrev pub lower_code : ℕ → List ℕ
lower_code n =
    if (leb 65 n && leb n 90) || (leb 192 n && leb n 222 && not (eqb n 215))
    then (n + 32) ∷ []
    else n ∷ []

abbrev prepend : List ℕ → List ℕ → List ℕ
prepend [] ns = ns
prepend (m ∷ ms) ns = m ∷ prepend ms ns

abbrev each : (ℕ → List ℕ) → List ℕ → List ℕ
each f [] = []
each f (n ∷ ns) = prepend (f n) (each f ns)

-- `text.upper()` and `text.lower()`, as codes
unfoldable pub upper : String → List ℕ
upper s = each upper_code (codes s)

unfoldable pub lower : String → List ℕ
lower s = each lower_code (codes s)

-- `startswith`
unfoldable pub starts : List ℕ → List ℕ → Bool
starts [] ns = true
starts (m ∷ ms) [] = false
starts (m ∷ ms) (n ∷ ns) = eqb m n && starts ms ns

-- `in`
unfoldable pub contains : List ℕ → List ℕ → Bool
contains ms [] = starts ms []
contains ms (n ∷ ns) = starts ms (n ∷ ns) || contains ms ns

abbrev begins_line : String → Bool
begins_line String.[] = false
begins_line (String.◌∷◌ c s) = starts (10 ∷ []) (codes (String.◌∷◌ c s))

abbrev drop_char : List String → List String
drop_char [] = []
drop_char (s ∷ ss) = text_drop 1 s ∷ ss

abbrev is_cr : List ℕ → Bool
is_cr ns = starts (13 ∷ []) ns

-- `text.split("\r\n")`: at a "\r" before a "\n", which the first piece of the rest begins with
unfoldable pub split_lines : String → List String
split_lines String.[] = "" ∷ []
split_lines (String.◌∷◌ c s) =
    let rest = split_lines s in
    if is_cr (codes (String.◌∷◌ c s)) && begins_line s
    then "" ∷ drop_char rest
    else grow_first c rest

-- what follows the first "\r\n\r\n"
unfoldable pub after_blank : String → Option String
after_blank String.[] = none
after_blank (String.◌∷◌ c s) =
    let rest = after_blank s in
    if starts (13 ∷ 10 ∷ 13 ∷ 10 ∷ []) (codes (String.◌∷◌ c s)) then some (text_drop 3 s) else rest

-- a word is done
abbrev pub end_word : String → List String → List String
end_word w ws = if is_empty w then ws else w ∷ ws

-- The word that `s` begins with, if it begins with one, and the words after it.
abbrev words_from : String → String × List String
words_from String.[] = ("", [])
words_from (String.◌∷◌ c s) =
    let (w, ws) = words_from s in
    if is_space (code c) then ("", end_word w ws) else (String.◌∷◌ c w, ws)

-- `text.split()`
unfoldable pub words : String → List String
words s = let (w, ws) = words_from s in end_word w ws
