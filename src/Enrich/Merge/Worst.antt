-- ===== src/Enrich/Merge/Worst.antt =====
-- The merged enrichment against a description of each field by itself.
use getarp.Base.{
  or_false, ℕ, max, String, ◌==◌, eq_iff, Bool, false, ◌&&◌, ◌||◌, not, Option, none, some, List,
  [], ◌∷◌, ◌++◌, ltb, elem, elem-append, if◌then◌else◌, ◌≡◌, inl, inr, refl, sym, ap, ◌∙◌, arith,
  Bool-cases, str_refl,
}
use getarp.Enrich.Record.{Enrichment, Answer, fetched, failed, unknown, severity}
use getarp.Enrich.Merge.Described.{
  worst, highest, any_attacker, any_category, first_of, IsDistinct, Merged,
}
use getarp.Enrich.Merge.{
  has_text, first_text, worse, larger, add_categories, merge_one, merge_all, merge_enrichments,
}

severity-worse : (a b : String) → severity (worse a b) ≡ max (severity a) (severity b)
unfolding worse
severity-worse a b = elim (Bool-cases (ltb (severity a) (severity b))) [
  | inl h ↦ rw h (ground arith)
  | inr h ↦ rw h (ground arith)
]

larger_lem : (a b : ℕ) → larger a b ≡ max a b
unfolding larger
larger_lem a b = ground arith

all_reputation :
    (m : Enrichment) (rs : List (String × Answer))
    → severity (merge_all m rs).reputation ≡ max (severity m.reputation) (worst rs)
unfolding merge_all merge_one
all_reputation m [] = omega arith
all_reputation m ((n, fetched r) ∷ rs) =
    omega (
      arith,
      all_reputation (merge_one m n (fetched r)) rs,
      severity-worse m.reputation r.reputation,
    )
all_reputation m ((n, failed ex) ∷ rs) = all_reputation (merge_one m n (failed ex)) rs

all_confidence :
    (m : Enrichment) (rs : List (String × Answer))
    → (merge_all m rs).confidence ≡ max m.confidence (highest rs)
unfolding merge_all merge_one
all_confidence m [] = omega arith
all_confidence m ((n, fetched r) ∷ rs) =
    omega
      (arith, all_confidence (merge_one m n (fetched r)) rs, larger_lem m.confidence r.confidence)
all_confidence m ((n, failed ex) ∷ rs) = all_confidence (merge_one m n (failed ex)) rs

or_swap : (a b c : Bool) → ((a || b) || c) ≡ (b || (a || c))
or_swap a b c = ground arith

all_attacker :
    (m : Enrichment) (rs : List (String × Answer))
    → (merge_all m rs).is_known_attacker ≡ (m.is_known_attacker || any_attacker rs)
unfolding merge_all merge_one
all_attacker m [] = or_false m.is_known_attacker
all_attacker m ((n, fetched r) ∷ rs) =
    all_attacker (merge_one m n (fetched r)) rs
    ∙ or_swap r.is_known_attacker m.is_known_attacker (any_attacker rs)
all_attacker m ((n, failed ex) ∷ rs) = all_attacker (merge_one m n (failed ex)) rs

first_text_assoc :
    (a b c : Option String)
    → first_text (first_text a b) c ≡ first_text a (if has_text b then b else c)
unfolding first_text
first_text_assoc a b c = ground arith

first_text-none : (a : Option String) → a ≡ first_text a none
unfolding first_text
first_text-none a = ground arith

-- a field that is merged by `first_text`
all_first :
    (get : Enrichment → Option String)
    → ((m r : Enrichment) (n : String)
        → get (merge_one m n (fetched r)) ≡ first_text (get m) (get r))
    → ((m : Enrichment) (n ex : String) → get (merge_one m n (failed ex)) ≡ get m)
    → (m : Enrichment) (rs : List (String × Answer))
    → get (merge_all m rs) ≡ first_text (get m) (first_of get rs)
unfolding merge_all
all_first get h k m [] = first_text-none (get m)
all_first get h k m ((n, fetched r) ∷ rs) =
    all_first get h k (merge_one m n (fetched r)) rs
    ∙ ap (λ x. first_text x (first_of get rs)) (h m r n)
    ∙ first_text_assoc (get m) (get r) (first_of get rs)
all_first get h k m ((n, failed ex) ∷ rs) =
    all_first get h k (merge_one m n (failed ex)) rs
    ∙ ap (λ x. first_text x (first_of get rs)) (k m n ex)

first_of_text :
    (get : Enrichment → Option String) (rs : List (String × Answer))
    → first_text none (first_of get rs) ≡ first_of get rs
unfolding first_text
first_of_text get [] = refl
first_of_text get ((n, fetched r) ∷ rs) = ground (arith, first_of_text get rs)
first_of_text get ((n, failed ex) ∷ rs) = first_of_text get rs

elem_none : (c : String) (b : Bool) → b ≡ (b || (has_text (some c) && false))
elem_none c b = ground arith

-- one category added where the test `t` on it allows it
one_category :
    (c x : String) (cats : List String) (t : String → Bool)
    → elem c (if t x && not (elem x cats) then cats ++ x ∷ [] else cats)
      ≡ (elem c cats || (t c && x == c))
one_category c x cats t = elim (Bool-cases (x == c)) [
  | inl h ↦ rw (sym ((eq_iff x c).0 h)) (ground (arith, elem-append x cats (x ∷ []), str_refl x))
  | inr h ↦ ground (arith, elem-append c cats (x ∷ []))
]

or_and_assoc : (a t b c : Bool) → ((a || (t && b)) || (t && c)) ≡ (a || (t && (b || c)))
or_and_assoc a t b c = ground arith

pub elem-add_categories :
    (c : String) (cats cs : List String)
    → elem c (add_categories cats cs) ≡ (elem c cats || (has_text (some c) && elem c cs))
unfolding add_categories
elem-add_categories c cats [] = elem_none c (elem c cats)
elem-add_categories c cats (x ∷ xs) =
    let t : String → Bool = λ s. has_text (some s) in
    let cats' = if t x && not (elem x cats) then cats ++ x ∷ [] else cats in
    elem-add_categories c cats' xs
    ∙ ap (λ b. b || (t c && elem c xs)) (one_category c x cats t)
    ∙ or_and_assoc (elem c cats) (t c) (x == c) (elem c xs)

all_category :
    (c : String) (m : Enrichment) (rs : List (String × Answer))
    → elem c (merge_all m rs).categories
      ≡ (elem c m.categories || (has_text (some c) && any_category c rs))
unfolding merge_all merge_one
all_category c m [] = elem_none c (elem c m.categories)
all_category c m ((n, fetched r) ∷ rs) = ground (
  arith,
  all_category c (merge_one m n (fetched r)) rs,
  elem-add_categories c m.categories r.categories,
)
all_category c m ((n, failed ex) ∷ rs) = all_category c (merge_one m n (failed ex)) rs

append-IsDistinct :
    (c : String) (cats : List String)
    → elem c cats ≡ false
    → IsDistinct cats
    → IsDistinct (cats ++ c ∷ [])
append-IsDistinct c [] h d = (refl, tt)
append-IsDistinct c (x ∷ xs) h d = (
  ground (arith, elem-append x xs (c ∷ []), eq_iff x c, eq_iff c x),
  append-IsDistinct c xs (ground arith) d.1,
)

add_categories-IsDistinct :
    (cats cs : List String) → IsDistinct cats → IsDistinct (add_categories cats cs)
unfolding add_categories
add_categories-IsDistinct cats [] d = d
add_categories-IsDistinct cats (c ∷ cs) d =
    elim (Bool-cases (has_text (some c) && not (elem c cats))) [
      | inl h ↦ rw h (
          add_categories-IsDistinct (cats ++ c ∷ []) cs (append-IsDistinct c cats (ground arith) d))
      | inr h ↦ rw h (add_categories-IsDistinct cats cs d)
    ]

all-IsDistinct :
    (m : Enrichment) (rs : List (String × Answer))
    → IsDistinct m.categories
    → IsDistinct (merge_all m rs).categories
unfolding merge_all merge_one
all-IsDistinct m [] d = d
all-IsDistinct m ((n, fetched r) ∷ rs) d =
    all-IsDistinct (merge_one m n (fetched r)) rs
      (add_categories-IsDistinct m.categories r.categories d)
all-IsDistinct m ((n, failed ex) ∷ rs) d = all-IsDistinct (merge_one m n (failed ex)) rs d

-- Whatever the providers answered, in the merged enrichment the severity of the reputation is the
-- greatest that an answer has, but at least that of `unknown`; the confidence is the highest;
-- `is_known_attacker` holds if an answer says so; country, asn and org are the first that is not
-- empty; and the categories are those of the answers, without empty ones and each once.
pub merge_enrichments-Merged :
    (ip name : String) (rs : List (String × Answer)) → Merged rs (merge_enrichments ip name rs)
unfolding merge_enrichments merge_one severity
merge_enrichments-Merged ip name rs =
    let m = unknown ip name in
    record {
      reputation = all_reputation m rs;
      confidence = omega (arith, all_confidence m rs);
      attacker = all_attacker m rs;
      country =
          all_first (λ r. r.country) (λ m r n. refl) (λ m n ex. refl) m rs
          ∙ first_of_text (λ r. r.country) rs;
      asn =
          all_first (λ r. r.asn) (λ m r n. refl) (λ m n ex. refl) m rs
          ∙ first_of_text (λ r. r.asn) rs;
      org =
          all_first (λ r. r.org) (λ m r n. refl) (λ m n ex. refl) m rs
          ∙ first_of_text (λ r. r.org) rs;
      categories = λ c. all_category c m rs;
      distinct = all-IsDistinct m rs tt;
    }
