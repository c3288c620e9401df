-- ===== src/Enrich/Blocklist/Printed.antt =====
-- The parser of the block list against a printer.
use Prim.Native.Char.{code}
use getarp.Base.{
  ℕ, String, ◌==◌, eq_iff, Bool, true, false, ◌||◌, Option, none, some, List, [], ◌∷◌, elem, strip,
  lstrip, rstrip, is_space, split_where, is_break, first_word, text_append, All, ◌≡◌, refl, ap, ◌∙◌,
  arith,
}
use getarp.Enrich.Blocklist.{is_comment, entry, add_entry, add_lines, parse}

-- a line of the list: an address, or a comment
pub data Line : Type 0 where
  listed : String → Line
  remark : String → Line

abbrev AllChars : (ℕ → Bool) → String → Type 0
AllChars p String.[] = Unit
AllChars p (String.◌∷◌ c s) = (p (code c) ≡ false) × AllChars p s

abbrev starts_comment : String → Bool
starts_comment String.[] = true
starts_comment (String.◌∷◌ c s) = is_comment (code c)

-- an address has no white space, and is not empty and no comment; a comment has no line break
abbrev pub IsPlain : Line → Type 0
IsPlain l = elim l [
  | listed ip ↦ AllChars is_space ip × (starts_comment ip ≡ false)
  | remark s ↦ AllChars is_break s
]

abbrev line_text : Line → String
line_text (listed ip) = ip
line_text (remark s) = text_append "#" s

-- the lines with a "\n" after each
unfoldable pub print : List Line → String
print [] = ""
print (l ∷ ls) = text_append (line_text l) (String.◌∷◌ "\n" (print ls))

-- the addresses of the lines
abbrev pub addresses : List Line → List String
addresses [] = []
addresses (listed ip ∷ ls) = ip ∷ addresses ls
addresses (remark s ∷ ls) = addresses ls

split_line :
    (s rest : String)
    → AllChars is_break s
    → split_where is_break (text_append s (String.◌∷◌ "\n" rest)) ≡ s ∷ split_where is_break rest
unfolding split_where text_append
split_line String.[] rest h = refl
split_line (String.◌∷◌ c s) rest h = rw (h.0, split_line s rest h.1) refl

space-of_break : (n : ℕ) → is_space n ≡ false → is_break n ≡ false
space-of_break n h = ground arith

no_break : (s : String) → AllChars is_space s → AllChars is_break s
no_break String.[] h = tt
no_break (String.◌∷◌ c s) h = (space-of_break (code c) h.0, no_break s h.1)

rstrip_word : (s : String) → AllChars is_space s → rstrip s ≡ s
unfolding rstrip
rstrip_word String.[] h = refl
rstrip_word (String.◌∷◌ c s) h = rw (h.0, rstrip_word s h.1) refl

first_word_lem : (s : String) → AllChars is_space s → first_word s ≡ s
unfolding first_word
first_word_lem String.[] h = refl
first_word_lem (String.◌∷◌ c s) h = rw (h.0, first_word_lem s h.1) refl

lstrip_word : (s : String) → AllChars is_space s → lstrip s ≡ s
unfolding lstrip
lstrip_word String.[] h = refl
lstrip_word (String.◌∷◌ c s) h = rw h.0 refl

entry_word :
    (s : String) → AllChars is_space s → starts_comment s ≡ false → entry (strip s) ≡ some s
unfolding entry strip
entry_word String.[] h g = cc
entry_word (String.◌∷◌ c s) h g =
    rw
      (
        rstrip_word (String.◌∷◌ c s) h,
        lstrip_word (String.◌∷◌ c s) h,
        g,
        first_word_lem (String.◌∷◌ c s) h,
      )
      refl

entry_remark : (s : String) → entry (strip (text_append "#" s)) ≡ none
unfolding entry strip lstrip rstrip text_append
entry_remark s = refl

entry_empty : entry (strip "") ≡ none
unfolding entry strip
entry_empty = refl

elem-add_entry :
    (o : Option String) (ip : String) (result : List String)
    → elem ip (add_entry o result)
      ≡ (elem ip result || (elim o [ none ↦ false | some w ↦ w == ip ]))
elem-add_entry none ip result = ground arith
elem-add_entry (some w) ip result = ground (arith, eq_iff w ip)

elem-add_lines :
    (ip : String) (ls : List Line) (result : List String)
    → All IsPlain ls
    → elem ip (add_lines result (split_where is_break (print ls)))
      ≡ (elem ip result || elem ip (addresses ls))
unfolding add_lines print split_where
elem-add_lines ip [] result h = rw entry_empty (ground arith)
elem-add_lines ip (listed w ∷ ls) result ((plain, start), h) =
    let rest = split_where is_break (print ls) in
    ap (λ l. elem ip (add_lines result l)) (split_line w (print ls) (no_break w plain))
    ∙ ap (λ o. elem ip (add_lines (add_entry o result) rest)) (entry_word w plain start)
    ∙ elem-add_lines ip ls (add_entry (some w) result) h
    ∙ ground (arith, elem-add_entry (some w) ip result)
elem-add_lines ip (remark s ∷ ls) result (plain, h) =
    let rest = split_where is_break (print ls) in
    ap (λ l. elem ip (add_lines result l))
      (split_line (text_append "#" s) (print ls) (unfold text_append in (refl, plain)))
    ∙ ap (λ o. elem ip (add_lines (add_entry o result) rest)) (entry_remark s)
    ∙ elem-add_lines ip ls result h

-- The blocklist that is read is the set of the addresses that were printed, whatever comments stand
-- between them, if no address has white space or begins like a comment and no comment a line break.
pub elem-parse-print :
    (ip : String) (ls : List Line)
    → All IsPlain ls
    → elem ip (parse (print ls)) ≡ elem ip (addresses ls)
unfolding parse
elem-parse-print ip ls h = elem-add_lines ip ls [] h
