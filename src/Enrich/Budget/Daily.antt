-- ===== src/Enrich/Budget/Daily.antt =====
-- How many requests the daily budget of AbuseIPDB lets through.
use getarp.Base.{
  ◌-◌, Option, length, length-append, ℕ, ◌+◌, ◌%◌, ◌≤◌, ◌<◌, max, Bool, true, false, none, some,
  List, [], ◌∷◌, ltb, leb, All, ◌≡◌, inl, inr, refl, arith, leb→lt, Bool-cases, Option-cases,
}
use getarp.Enrich.Record.{Enrichment, unknown}
use getarp.Enrich.Memory.{cached}
use getarp.Flight.{pick, length-pick}
use getarp.Enrich.Budget.{
  Flights, Op, begin, finish, begun, finished, step, Budget, Reply, unreachable, limited, rejected,
  scored, Call, cache_ttl, reset_daily, settle, request, look_up, enrich,
}

abbrev was_answered : Reply → ℕ
was_answered (unreachable ex) = 0
was_answered _ = 1

-- whether the request that is at its end was answered
abbrev answers : Op → Flights → ℕ
answers (begin c) f = 0
answers (finish n) f = elim (pick n f.out) [ none ↦ 0 | some ((c, e), out) ↦ was_answered c.reply ]

-- the requests that are answered in these steps, and what the steps lead to
unfoldable pub spend : Bool → ℕ → ℕ → List Op → Flights → ℕ × Flights
spend key quota loops [] f = (0, f)
spend key quota loops (op ∷ ops) f =
    let (n, f') = spend key quota loops ops (step key quota loops op f) in (answers op f + n, f')

-- the budget is looked at before it is due to be reset
abbrev IsEarly : ℕ → Op → Type 0
IsEarly due (begin c) = c.checked < due
IsEarly due (finish n) = Unit

abbrev pub SameDay : ℕ → List Op → Type 0
SameDay due ops = All (IsEarly due) ops

settle_count :
    (c : Call) (e : Enrichment) (r : Reply) (s : Budget)
    → (settle c e r s).1.daily_count ≡ was_answered r + s.daily_count
unfolding settle
settle_count c e (unreachable ex) s = omega arith
settle_count c e (limited none) s = omega arith
settle_count c e (limited (some n)) s = omega arith
settle_count c e (rejected ex) s = omega arith
settle_count c e (scored n k o r) s = omega arith

settle_reset :
    (c : Call) (e : Enrichment) (r : Reply) (s : Budget)
    → (settle c e r s).1.daily_reset ≡ s.daily_reset
unfolding settle
settle_reset c e (unreachable ex) s = refl
settle_reset c e (limited none) s = refl
settle_reset c e (limited (some n)) s = refl
settle_reset c e (rejected ex) s = refl
settle_reset c e (scored n k o r) s = refl

-- what a step leaves of the budget that it found
record Spent (quota loops n : ℕ) (f f' : Flights) : Type 0 where
  count : f'.budget.daily_count ≡ n + f.budget.daily_count
  reset : f'.budget.daily_reset ≡ f.budget.daily_reset
  bound :
      f'.budget.daily_count + length f'.out
      ≤ max (quota + (loops - 1)) (f.budget.daily_count + length f.out)

answered_le : (r : Reply) → was_answered r ≤ 1
answered_le (unreachable ex) = omega arith
answered_le (limited w) = omega arith
answered_le (rejected ex) = omega arith
answered_le (scored n k o r) = omega arith

idle-Spent : (quota loops : ℕ) (f : Flights) → Spent quota loops 0 f f
idle-Spent quota loops f = record { count = omega arith; reset = refl; bound = omega arith }

reset_daily_early : (now : ℕ) (s : Budget) → now < s.daily_reset → reset_daily now s ≡ s
unfolding reset_daily
reset_daily_early now s h = ground arith

module _ (quota loops : ℕ) (c : Call) (f : Flights) (free : length f.out < loops) where
  request-Spent :
      (e : Enrichment)
      → Spent quota loops 0 f (begun c f.out (request quota c e f.budget, f.budget))
  unfolding request
  request-Spent e = elim (Bool-cases (leb quota f.budget.daily_count)) [
    | inl full ↦ rw full (idle-Spent quota loops f)
    | inr left ↦ elim (Bool-cases (ltb c.started f.budget.rate_limited_until)) [
      | inl wait ↦ rw (left, wait) (idle-Spent quota loops f)
      | inr go ↦
          rw (left, go)
            (record {
              count = omega arith;
              reset = refl;
              bound = omega (
                arith,
                leb→lt quota f.budget.daily_count left,
                length-append f.out ((c, e) ∷ []),
                free,
              );
            })
    ]
  ]

  look_up-Spent :
      (key : Bool) (e : Enrichment)
      → c.checked < f.budget.daily_reset
      → Spent quota loops 0 f (begun c f.out (look_up key quota c e f.budget))
  unfolding look_up
  look_up-Spent false e h = idle-Spent quota loops f
  look_up-Spent true e h = rw (reset_daily_early c.checked f.budget h) (request-Spent e)

  enrich-Spent :
      (key : Bool)
      → c.checked < f.budget.daily_reset
      → Spent quota loops 0 f (begun c f.out (enrich key quota c f.budget))
  unfolding enrich
  enrich-Spent key h = elim (Option-cases (cached cache_ttl c.ip c.started f.budget.memory)) [
    | inl e ↦ rw (e, enrich) (look_up-Spent key (unknown c.ip "abuseipdb") h)
    | inr (a, e) ↦ rw (e, enrich) (idle-Spent quota loops f)
  ]

finished-Spent :
    (quota loops n : ℕ) (f : Flights) (o : Option ((Call × Enrichment) × List (Call × Enrichment)))
    → pick n f.out ≡ o
    → Spent quota loops
        (elim o [ none ↦ 0 | some ((c, e), out) ↦ was_answered c.reply ])
        f
        (finished f o)
finished-Spent quota loops n f none h = idle-Spent quota loops f
finished-Spent quota loops n f (some ((c, e), out)) h = record {
  count = settle_count c e c.reply f.budget;
  reset = settle_reset c e c.reply f.budget;
  bound = omega (
    arith,
    settle_count c e c.reply f.budget,
    answered_le c.reply,
    length-pick n f.out (c, e) out h,
  );
}

step-Spent :
    (key : Bool) (quota loops : ℕ) (op : Op) (f : Flights)
    → IsEarly f.budget.daily_reset op
    → Spent quota loops (answers op f) f (step key quota loops op f)
unfolding step
step-Spent key quota loops (finish n) f h = finished-Spent quota loops n f (pick n f.out) refl
step-Spent key quota loops (begin c) f h = elim (Bool-cases (leb loops (length f.out))) [
  | inl busy ↦ rw busy (idle-Spent quota loops f)
  | inr free ↦ rw free (enrich-Spent quota loops c f (leb→lt loops (length f.out) free) key h)
]

-- Until the budget is due to be reset, and however the calls of `loops` coroutines that each handle one
-- message at a time interleave: the daily count rises by the requests that are answered, and, together
-- with the requests that are out, stays at most the quota and one less than the coroutines, or where it
-- was if it already exceeded that. So from a count within the quota and with no request out, one
-- coroutine keeps to the quota, and two exceed it by one at most.
pub spend_lem :
    (key : Bool) (quota loops : ℕ) (ops : List Op) (f : Flights)
    → SameDay f.budget.daily_reset ops
    → let (n, f') = spend key quota loops ops f in
      (f'.budget.daily_count ≡ n + f.budget.daily_count)
      × (f'.budget.daily_count + length f'.out
          ≤ max (quota + (loops - 1)) (f.budget.daily_count + length f.out))
unfolding spend
spend_lem key quota loops [] f h = (omega arith, omega arith)
spend_lem key quota loops (op ∷ ops) f h =
    let p = step-Spent key quota loops op f h.0 in
    let q = spend_lem key quota loops ops (step key quota loops op f) (rw p.reset h.1) in
    (omega (arith, p.count, q.0), omega (arith, p.bound, q.1))

-- the next reset is at a midnight, and within a day
pub record IsDue (now : ℕ) (s : Budget) : Type 0 where
  pub soon : s.daily_reset ≤ now + 86400
  pub midnight : s.daily_reset % 86400 ≡ 0
