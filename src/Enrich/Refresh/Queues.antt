-- ===== src/Enrich/Refresh/Queues.antt =====
-- The addresses that a round of `refresh_loop` queues.
use getarp.Base.{
  ℕ, zero, suc, ◌≤◌, String, ◌==◌, Bool, ◌||◌, List, [], ◌∷◌, length, take, keep, any, ◌≡◌, inl,
  inr, refl, ap, ◌∙◌, arith, Bool-cases,
}
use getarp.Enrich.Refresh.{Candidate, Intervals, is_due, comes_first, insert, sort, select}

abbrev lists : String → List Candidate → Bool
lists ip is = any (λ i. i.ip == ip) is

lists-insert :
    (ip : String) (i : Candidate) (js : List Candidate)
    → lists ip (insert i js) ≡ (i.ip == ip || lists ip js)
unfolding insert
lists-insert ip i [] = refl
lists-insert ip i (j ∷ js) = elim (Bool-cases (comes_first i.verdict j.verdict)) [
  | inl first ↦ rw first refl
  | inr later ↦ rw later (ground (arith, lists-insert ip i js))
]

lists-sort : (ip : String) (is : List Candidate) → lists ip (sort is) ≡ lists ip is
unfolding sort
lists-sort ip [] = refl
lists-sort ip (i ∷ is) = lists-insert ip i (sort is) ∙ ap (λ b. i.ip == ip || b) (lists-sort ip is)

length-insert : (i : Candidate) (js : List Candidate) → length (insert i js) ≡ suc (length js)
unfolding insert
length-insert i [] = refl
length-insert i (j ∷ js) = ground (arith, length-insert i js)

length-sort : (is : List Candidate) → length (sort is) ≡ length is
unfolding sort
length-sort [] = refl
length-sort (i ∷ is) = omega (arith, length-insert i (sort is), length-sort is)

take-all : (n : ℕ) (is : List Candidate) → length is ≤ n → take n is ≡ is
take-all zero [] h = refl
take-all (suc n) [] h = refl
take-all zero (i ∷ is) h = absurd (omega (arith, h))
take-all (suc n) (i ∷ is) h = ap (λ l. i ∷ l) (take-all n is (omega (arith, h)))

-- If no more addresses are due than a batch holds, exactly these are queued again.
pub select_due :
    (c : Intervals) (now : ℕ) (ips : List Candidate) (ip : String)
    → length (keep (is_due c now) ips) ≤ c.batch
    → lists ip (select c now ips) ≡ lists ip (keep (is_due c now) ips)
unfolding select
select_due c now ips ip few =
    let due = keep (is_due c now) ips in
    ap (lists ip) (take-all c.batch (sort due) (omega (arith, few, length-sort due)))
    ∙ lists-sort ip due
