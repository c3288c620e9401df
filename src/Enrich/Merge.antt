-- ===== src/Enrich/Merge.antt =====
-- `merge_enrichments` of enrichment/providers.py.
pub mod Described
pub mod Worst
use getarp.Base.{
  ℕ, String, ◌==◌, Bool, true, false, ◌&&◌, ◌||◌, not, Option, none, some, List, [], ◌∷◌, ◌++◌, ltb,
  elem, if◌then◌else◌,
}
use getarp.Json.{Value, Fields, null, str, obj, end, field, put}
use getarp.Enrich.Record.{Enrichment, Answer, fetched, failed, unknown, severity}

-- `bool(s)` of an optional text
abbrev pub has_text : Option String → Bool
has_text none = false
has_text (some String.[]) = false
has_text (some s) = true

abbrev fields_of : Value → Fields
fields_of v = elim v [ obj fs ↦ fs | _ ↦ end ]

-- `merged.raw[name] = v`
abbrev pub raw_put : Value → String → Value → Value
raw_put raw name v = obj (put (fields_of raw) name v)

-- `if not a and b: a = b`
unfoldable pub first_text : Option String → Option String → Option String
first_text a b = if not (has_text a) && has_text b then b else a

-- `if severity(b) > severity(a): a = b`
unfoldable pub worse : String → String → String
worse a b = if ltb (severity a) (severity b) then b else a

-- `if b > a: a = b`
unfoldable pub larger : ℕ → ℕ → ℕ
larger a b = if ltb a b then b else a

-- the loop over `result.categories`
unfoldable pub add_categories : List String → List String → List String
add_categories cats [] = cats
add_categories cats (c ∷ cs) =
    add_categories (if has_text (some c) && not (elem c cats) then cats ++ c ∷ [] else cats) cs

-- one round of the loop over the results
unfoldable pub merge_one : Enrichment → String → Answer → Enrichment
unfolding add_categories
merge_one m name (failed ex) = record m {
  raw = raw_put m.raw name (obj (field "error" (str ex) end));
}
merge_one m name (fetched r) = record m {
  raw = raw_put m.raw name (obj (put (fields_of r.raw) "reputation" (str r.reputation)));
  reputation = worse m.reputation r.reputation;
  confidence = larger m.confidence r.confidence;
  is_known_attacker = r.is_known_attacker || m.is_known_attacker;
  country = first_text m.country r.country;
  asn = first_text m.asn r.asn;
  org = first_text m.org r.org;
  categories = add_categories m.categories r.categories;
}

unfoldable pub merge_all : Enrichment → List (String × Answer) → Enrichment
merge_all m [] = m
merge_all m ((name, r) ∷ rs) = merge_all (merge_one m name r) rs

-- `merge_enrichments`
unfoldable pub merge_enrichments : String → String → List (String × Answer) → Enrichment
merge_enrichments ip name rs = merge_all (unknown ip name) rs
