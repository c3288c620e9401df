-- ===== src/Enrich/Blocklist.antt =====
-- The Feodo Tracker's list as text: `AbusechProvider._parse` of enrichment/providers.py, and the same
-- loop in `AbuseChFeodoFeed.refresh` of enrichment/feeds.py.
pub mod Printed
use Prim.Native.Char.{code}
use getarp.Base.{
  ℕ, String, Bool, true, false, ◌||◌, Option, none, some, List, [], ◌∷◌, ◌++◌, eqb, elem, strip,
  split_where, is_break, first_word, if◌then◌else◌,
}

-- `line[0] in "#;"`
abbrev pub is_comment : ℕ → Bool
is_comment n = eqb n 35 || eqb n 59

-- the address on a stripped line
unfoldable pub entry : String → Option String
entry String.[] = none
entry (String.◌∷◌ c s) = if is_comment (code c) then none else some (first_word (String.◌∷◌ c s))

-- `result.add(...)`
abbrev pub add_entry : Option String → List String → List String
add_entry none result = result
add_entry (some ip) result = if elem ip result then result else ip ∷ result

unfoldable pub add_lines : List String → List String → List String
add_lines result [] = result
add_lines result (l ∷ ls) = add_lines (add_entry (entry (strip l)) result) ls

-- `_parse`: the set of the addresses
unfoldable pub parse : String → List String
parse text = add_lines [] (split_where is_break text)
