-- ===== src/Flight.antt =====
-- Calls that wait together, of a provider (enrichment/providers.py) or of the login (api/main.py): which of
-- them goes on next is the choice of the scheduler.
use getarp.Base.{
  All, ℕ, zero, suc, ◌+◌, Option, none, some, List, [], ◌∷◌, ◌++◌, length, ◌≡◌, refl, arith,
  Option-cases, inl, inr,
}

-- the n-th of them, and the others
unfoldable pub pick : {A : Type 0} → ℕ → List A → Option (A × List A)
pick n [] = none
pick zero (x ∷ xs) = some (x, xs)
pick (suc n) (x ∷ xs) = elim (pick n xs) [ none ↦ none | some (y, ys) ↦ some (y, x ∷ ys) ]

-- the sum of what each weighs
abbrev pub total : {A : Type 0} → (A → ℕ) → List A → ℕ
total w [] = 0
total w (x ∷ xs) = w x + total w xs

pub total-append :
    {A : Type 0} (w : A → ℕ) (xs : List A) (x : A) → total w (xs ++ x ∷ []) ≡ w x + total w xs
total-append w [] x = refl
total-append w (y ∷ xs) x = omega (arith, total-append w xs x)

pub total-pick :
    {A : Type 0} (w : A → ℕ) (n : ℕ) (xs : List A) (y : A) (ys : List A)
    → pick n xs ≡ some (y, ys)
    → total w xs ≡ w y + total w ys
unfolding pick
total-pick w n [] y ys h = absurd (ground arith)
total-pick w zero (x ∷ xs) y ys h = ground arith
total-pick w (suc n) (x ∷ xs) y ys h = elim (Option-cases (pick n xs)) [
  | inl e ↦ absurd (ground arith)
  | inr ((z, zs), e) ↦ ground (arith, total-pick w n xs z zs e)
]

total_one : {A : Type 0} (xs : List A) → total (λ x. 1) xs ≡ length xs
total_one [] = refl
total_one (x ∷ xs) = omega (arith, total_one xs)

pub length-pick :
    {A : Type 0} (n : ℕ) (xs : List A) (y : A) (ys : List A)
    → pick n xs ≡ some (y, ys)
    → length xs ≡ length ys + 1
length-pick n xs y ys h = omega (arith, total_one xs, total_one ys, total-pick (λ x. 1) n xs y ys h)

abbrev Picked : {A : Type 0} → (A → Type 0) → Option (A × List A) → Type 0
Picked P none = Unit
Picked P (some (y, ys)) = P y × All P ys

Picked-skip :
    {A : Type 0} (P : A → Type 0) (x : A) (o : Option (A × List A))
    → P x
    → Picked P o
    → Picked P (elim o [ none ↦ none | some (y, ys) ↦ some (y, x ∷ ys) ])
Picked-skip P x none p h = tt
Picked-skip P x (some (y, ys)) p h = (h.0, (p, h.1))

pick-Picked : {A : Type 0} (P : A → Type 0) (n : ℕ) (xs : List A) → All P xs → Picked P (pick n xs)
unfolding pick
pick-Picked P n [] a = tt
pick-Picked P zero (x ∷ xs) a = a
pick-Picked P (suc n) (x ∷ xs) a = Picked-skip P x (pick n xs) a.0 (pick-Picked P n xs a.1)

pub All-pick :
    {A : Type 0} (P : A → Type 0) (n : ℕ) (xs : List A) (y : A) (ys : List A)
    → All P xs
    → pick n xs ≡ some (y, ys)
    → P y × All P ys
All-pick P n xs y ys a h = rw h at (pick-Picked P n xs a)

pub All-append :
    {A : Type 0} (P : A → Type 0) (xs : List A) (x : A) → All P xs → P x → All P (xs ++ x ∷ [])
All-append P [] x a p = (p, tt)
All-append P (y ∷ xs) x a p = (a.0, All-append P xs x a.1 p)
