-- ===== src/Analytics/Evict/Shrinks.antt =====
-- How much an eviction takes.
use getarp.Base.{
  ◌&&◌, not, leb, leb→le, leb→lt, if◌then◌else◌, ◌⊎◌, ℕ, zero, suc, ◌+◌, ◌/◌, ◌≤◌, max, String,
  true, List, [], ◌∷◌, take, map, length, ltb, All, ◌≡◌, inl, inr, refl, arith, Bool-cases,
  str_refl,
}
use getarp.Base.Dict.{Dict, get, put, remove, has, length-put, length-remove-le, length-remove-lt}
use getarp.Analytics.Evict.{insert_by_age, sort_by_age, remove_all, coldest, evict}

length-remove_all-le :
    {V : Type 0} (ks : List String) (d : Dict V) → length (remove_all ks d) ≤ length d
unfolding remove_all
length-remove_all-le [] d = omega arith
length-remove_all-le (k ∷ ks) d =
    omega (arith, length-remove_all-le ks (remove d k), length-remove-le d k)

module _ {V : Type 0} (age : V → ℕ) where
  -- a property of all entries holds of the sorted ones
  insert-All :
      (P : String × V → Type 0) (e : String × V) (d : Dict V)
      → P e
      → All P d
      → All P (insert_by_age age e d)
  unfolding insert_by_age
  insert-All P e [] p h = (p, tt)
  insert-All P e (f ∷ fs) p h = elim (Bool-cases (ltb (age f.1) (age e.1))) [
    | inl q ↦ rw q (h.0, insert-All P e fs p h.1)
    | inr q ↦ rw q (p, h)
  ]

  sort-All : (P : String × V → Type 0) (d : Dict V) → All P d → All P (sort_by_age age d)
  unfolding sort_by_age
  sort-All P [] h = tt
  sort-All P (e ∷ d) h = insert-All P e (sort_by_age age d) h.0 (sort-All P d h.1)

  length-insert : (e : String × V) (d : Dict V) → length (insert_by_age age e d) ≡ suc (length d)
  unfolding insert_by_age
  length-insert e [] = refl
  length-insert e (f ∷ fs) = ground (arith, length-insert e fs)

  length-sort : (d : Dict V) → length (sort_by_age age d) ≡ length d
  unfolding sort_by_age
  length-sort [] = refl
  length-sort (e ∷ d) = omega (arith, length-insert e (sort_by_age age d), length-sort d)

entries-sub :
    {V : Type 0} (d e : Dict V)
    → ((k : String) → has e k ≡ true → has d k ≡ true)
    → All (λ x. has d x.0 ≡ true) e
unfolding get
entries-sub d [] sub = tt
entries-sub d ((k, v) ∷ e) sub =
    (sub k (ground (arith, str_refl k)), entries-sub d e (λ i h. sub i (ground arith)))

-- every entry is found under its key
entries-has : {V : Type 0} (d : Dict V) → All (λ e. has d e.0 ≡ true) d
entries-has d = entries-sub d d (λ k h. h)

-- keys of the dict, one at least
Hits : {V : Type 0} → Dict V → List String → Type 0
Hits d [] = ⊥
Hits d (k ∷ ks) = has d k ≡ true

remove_all-lt :
    {V : Type 0} (ks : List String) (d : Dict V)
    → Hits d ks
    → length (remove_all ks d) + 1 ≤ length d
unfolding remove_all Hits
remove_all-lt [] d h = absurd h
remove_all-lt (k ∷ ks) d h =
    omega (arith, length-remove_all-le ks (remove d k), length-remove-lt d k h)

first-Hits :
    {V : Type 0} (n : ℕ) (d s : Dict V)
    → 1 ≤ n
    → 1 ≤ length s
    → All (λ e. has d e.0 ≡ true) s
    → Hits d (map (λ e. e.0) (take n s))
unfolding Hits
first-Hits zero d s h l a = absurd (omega (arith, h))
first-Hits (suc n) d [] h l a = absurd (omega (arith, l))
first-Hits (suc n) d (e ∷ s) h l a = a.0

-- An eviction from a dict that is not empty leaves it smaller.
pub length-evict :
    {V : Type 0} (age : V → ℕ) (cap : ℕ) (d : Dict V)
    → 1 ≤ length d
    → length (evict age cap d) + 1 ≤ length d
unfolding evict coldest
length-evict age cap d h = remove_all-lt (coldest age cap d) d (
    first-Hits (max 1 (cap / 10)) d (sort_by_age age d) (omega arith)
      (omega (arith, length-sort age d, h))
      (sort-All age (λ e. has d e.0 ≡ true) d (entries-has d)))

-- a dict that is over its limit makes room for a new key
abbrev pub with_room : {V : Type 0} → (V → ℕ) → ℕ → String → Dict V → Dict V
with_room age limit k d = if not (has d k) && leb limit (length d) then evict age limit d else d

-- then there is an entry for the key, or room for one
pub room :
    {V : Type 0} (age : V → ℕ) (limit : ℕ) (k : String) (d : Dict V)
    → 1 ≤ limit
    → length d ≤ limit
    → (length (with_room age limit k d) + 1 ≤ limit)
      ⊎ ((has (with_room age limit k d) k ≡ true) × (length (with_room age limit k d) ≤ limit))
room age limit k d pos h = elim (Bool-cases (has d k)) [
  | inl old ↦ rw old (inr (old, h))
  | inr new ↦ elim (Bool-cases (leb limit (length d))) [
    | inl full ↦
        rw (new, full)
          (inl (
            omega (
              arith,
              length-evict age limit d (omega (arith, pos, leb→le limit (length d) full)),
              h,
            )))
    | inr free ↦ rw (new, free) (inl (omega (arith, leb→lt limit (length d) free)))
  ]
]

-- and a write of the key keeps the limit
pub length-put-room :
    {V : Type 0} (limit : ℕ) (k : String) (v : V) (d : Dict V)
    → (length d + 1 ≤ limit) ⊎ ((has d k ≡ true) × (length d ≤ limit))
    → length (put d k v) ≤ limit
length-put-room limit k v d h = ground (arith, length-put d k v)
