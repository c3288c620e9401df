-- ===== src/Enrich/Merge/Described.antt =====
-- Each field of a merged enrichment (`merge_enrichments`, enrichment/providers.py) by itself.
use getarp.Base.{
  ℕ, max, String, Bool, false, ◌&&◌, ◌||◌, Option, none, some, List, [], ◌∷◌, elem, if◌then◌else◌,
  ◌≡◌,
}
use getarp.Enrich.Record.{Enrichment, Answer, fetched, failed, severity}
use getarp.Enrich.Merge.{has_text}

-- the greatest severity that the answers reach
abbrev pub worst : List (String × Answer) → ℕ
worst [] = 0
worst ((n, fetched r) ∷ rs) = max (severity r.reputation) (worst rs)
worst ((n, failed ex) ∷ rs) = worst rs

abbrev pub highest : List (String × Answer) → ℕ
highest [] = 0
highest ((n, fetched r) ∷ rs) = max r.confidence (highest rs)
highest ((n, failed ex) ∷ rs) = highest rs

abbrev pub any_attacker : List (String × Answer) → Bool
any_attacker [] = false
any_attacker ((n, fetched r) ∷ rs) = r.is_known_attacker || any_attacker rs
any_attacker ((n, failed ex) ∷ rs) = any_attacker rs

-- some answer has this category
abbrev pub any_category : String → List (String × Answer) → Bool
any_category c [] = false
any_category c ((n, fetched r) ∷ rs) = elem c r.categories || any_category c rs
any_category c ((n, failed ex) ∷ rs) = any_category c rs

-- the first text that is not empty
abbrev pub first_of : (Enrichment → Option String) → List (String × Answer) → Option String
first_of get [] = none
first_of get ((n, fetched r) ∷ rs) = if has_text (get r) then get r else first_of get rs
first_of get ((n, failed ex) ∷ rs) = first_of get rs

-- no text stands twice in the list
abbrev pub IsDistinct : List String → Type 0
IsDistinct [] = Unit
IsDistinct (x ∷ xs) = (elem x xs ≡ false) × IsDistinct xs

pub record Merged (rs : List (String × Answer)) (m : Enrichment) : Type 0 where
  pub reputation : severity m.reputation ≡ max 1 (worst rs)
  pub confidence : m.confidence ≡ highest rs
  pub attacker : m.is_known_attacker ≡ any_attacker rs
  pub country : m.country ≡ first_of (λ r. r.country) rs
  pub asn : m.asn ≡ first_of (λ r. r.asn) rs
  pub org : m.org ≡ first_of (λ r. r.org) rs
  pub categories : (c : String) → elem c m.categories ≡ (has_text (some c) && any_category c rs)
  pub distinct : IsDistinct m.categories
