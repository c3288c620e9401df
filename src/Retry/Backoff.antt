-- ===== src/Retry/Backoff.antt =====
-- The waits between attempts.
use getarp.Base.{ℕ, zero, suc, ◌-◌, ◌*◌, ◌/◌, ◌^◌, ◌≤◌, ◌<◌, ◌≡◌, arith}
use native.Mathlib.Nat.{pow-suc}
use getarp.Retry.{ceiling, delay}

-- what is documented of `random.uniform`
pub record IsUniform (uniform : ℕ → ℕ → ℕ) : Type 0 where
  pub above : (lo hi : ℕ) → lo ≤ hi → lo ≤ uniform lo hi
  pub below : (lo hi : ℕ) → lo ≤ hi → uniform lo hi ≤ hi

-- A wait is never longer than the cap, and never shorter than half of what the attempt allows.
pub delay_bounds :
    (uniform : ℕ → ℕ → ℕ) (base cap attempt : ℕ)
    → IsUniform uniform
    → (ceiling base cap attempt / 2 ≤ delay uniform base cap attempt)
      × (delay uniform base cap attempt ≤ ceiling base cap attempt)
      × (delay uniform base cap attempt ≤ cap)
unfolding delay
delay_bounds uniform base cap attempt u =
    let c = ceiling base cap attempt in
    let lo = u.above (c / 2) c (omega arith) in
    let hi = u.below (c / 2) c (omega arith) in (lo, hi, omega arith)

lt-pow_two : (n : ℕ) → n < 2 ^ n
lt-pow_two zero = omega arith
lt-pow_two (suc n) = rw pow-suc (omega (arith, lt-pow_two n))

-- With a positive base the cap is reached: after as many failures as it has units every wait has it
-- for its ceiling.
pub ceiling_reaches_cap :
    (base cap attempt : ℕ) → 0 < base → cap < attempt → ceiling base cap attempt ≡ cap
unfolding ceiling
ceiling_reaches_cap base cap attempt pos late =
    let p = lt-pow_two (attempt - 1) in
    let q : 2 ^ (attempt - 1) ≤ base * 2 ^ (attempt - 1) = grind arith in omega arith
