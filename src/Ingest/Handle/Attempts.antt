-- ===== src/Ingest/Handle/Attempts.antt =====
-- The retries of `_consume_one`: how they end, and what they leave as it is.
use getarp.Base.Exec.{ok, raise}
use getarp.Base.{
  ℕ, true, zero, suc, ◌+◌, ◌≤◌, ◌<◌, false, ◌||◌, not, none, ◌≡◌, ◌⊎◌, refl, arith, leb, Bool-cases,
  inl, inr,
}
use getarp.Json.{Value}
use getarp.Retry.{Ex, Clients, is_transient}
use getarp.Ingest.Normalize.{Sensor}
use getarp.Ingest.Store.{Store}
use getarp.Ingest.Handle.{
  Runtime, Attempt, Run, handle, Ended, done, dropped, after_attempt, consume_from, consume_one,
}
use getarp.Ingest.Handle.Replay.{IsTimed, handle_again}

module _ (cl : Clients) (rt : Runtime) (at : ℕ → Attempt) (max : ℕ) (sensor : Sensor)
    (r : Value) where
  -- How a loop ends that starts its attempt `k` on the store `s`: the attempt returns; or it raises what
  -- no retry repairs, or is the last; or it raises a transient failure, and the next attempt starts on
  -- the store that it left.
  pub data EndsWell : ℕ → Store → Ended × Store → Type 0 where
    returns :
        (k : ℕ) (s s' : Store)
        → 1 ≤ k
        → k ≤ max
        → handle rt (at k) sensor r s ≡ (ok tt, s')
        → EndsWell k s (done, s')
    drops :
        (k : ℕ) (s s' : Store) (ex : Ex)
        → 1 ≤ k
        → k ≤ max
        → handle rt (at k) sensor r s ≡ (raise ex, s')
        → (is_transient cl ex ≡ false) ⊎ (k ≡ max)
        → EndsWell k s (dropped (is_transient cl ex) k ex, s')
    retries :
        (k : ℕ) (s s' : Store) (ex : Ex) (out : Ended × Store)
        → k < max
        → handle rt (at k) sensor r s ≡ (raise ex, s')
        → is_transient cl ex ≡ true
        → EndsWell (k + 1) s' out
        → EndsWell k s out

  after-EndsWell :
      (k : ℕ) (s : Store) (run : Run) (again : Store → Ended × Store)
      → 1 ≤ k
      → k ≤ max
      → handle rt (at k) sensor r s ≡ run
      → (k < max → EndsWell (k + 1) run.1 (again run.1))
      → EndsWell k s (after_attempt cl max k run again)
  unfolding after_attempt
  after-EndsWell k s (ok u, s') again hk hm same rest = returns k s s' hk hm same
  after-EndsWell k s (raise ex, s') again hk hm same rest = elim (Bool-cases (is_transient cl ex)) [
    | inr perm ↦ rw perm (rw perm at (drops k s s' ex hk hm same (inl perm)))
    | inl trans ↦ elim (Bool-cases (leb max k)) [
      | inl last ↦ rw (trans, last) (rw trans at (drops k s s' ex hk hm same (inr (ground arith))))
      | inr more ↦
          rw (trans, more)
            (retries k s s' ex (again s') (ground arith) same trans (rest (ground arith)))
    ]
  ]

  ends_from :
      (left k : ℕ) (s : Store)
      → 1 ≤ k
      → 1 ≤ left
      → left + k ≡ max + 1
      → EndsWell k s (consume_from cl rt at max sensor r left k s)
  unfolding consume_from
  ends_from zero k s hk hl e = absurd (omega arith)
  ends_from (suc left) k s hk hl e =
      let run = handle rt (at k) sensor r s in
      after-EndsWell k s run (consume_from cl rt at max sensor r left (k + 1)) hk (omega arith) refl
        (λ lt. ends_from left (k + 1) run.1 (omega arith) (omega arith) (omega arith))

  -- With at least one attempt allowed the loop always returns, and as the outcomes of its attempts say:
  -- each attempt before the last one made raised a transient failure and the next one started on the
  -- store that it left; the record counts as handled exactly where that last attempt returned, and as
  -- dropped, with its failure, where that attempt raised what no retry repairs or was the last allowed.
  pub consume_one-EndsWell :
      (s : Store) → 1 ≤ max → EndsWell 1 s (consume_one cl rt at max sensor r s)
  unfolding consume_one
  consume_one-EndsWell s h = ends_from max 1 s (omega arith) h (omega arith)

after-state :
    (cl : Clients) (max k : ℕ) (run : Run) (again : Store → Ended × Store) (s : Store)
    → run.1 ≡ s
    → (again s).1 ≡ s
    → (after_attempt cl max k run again).1 ≡ s
unfolding after_attempt
after-state cl max k (ok u, s') again s e h = e
after-state cl max k (raise ex, s') again s e h =
    elim (Bool-cases (not (is_transient cl ex) || leb max k)) [
      | inl stop ↦ rw stop e
      | inr more ↦ rw (more, e) h
    ]

-- a store that no attempt changes is the one that the loop ends with
settled_from :
    (cl : Clients) (rt : Runtime) (at : ℕ → Attempt) (max : ℕ) (sensor : Sensor) (r : Value)
    (left k : ℕ) (s : Store)
    → ((b : Attempt) → (handle rt b sensor r s).1 ≡ s)
    → (consume_from cl rt at max sensor r left k s).1 ≡ s
unfolding consume_from
settled_from cl rt at max sensor r zero k s h = refl
settled_from cl rt at max sensor r (suc left) k s h =
    after-state cl max k (handle rt (at k) sensor r s)
      (consume_from cl rt at max sensor r left (k + 1)) s (h (at k))
      (settled_from cl rt at max sensor r left (k + 1) s h)

-- If the time of the record's event does not depend on when the record is read, and the INSERT of the
-- first attempt has not failed, the store that the loop ends with is the one that the first attempt left:
-- no retry adds a row, a count or a message that the first attempt had not yet added.
pub consume_one_settled :
    (cl : Clients) (rt : Runtime) (at : ℕ → Attempt) (max : ℕ) (sensor : Sensor) (r : Value)
    (s : Store)
    → 1 ≤ max
    → IsTimed rt sensor r
    → (at 1).insert_fault ≡ none
    → (consume_one cl rt at max sensor r s).1 ≡ (handle rt (at 1) sensor r s).1
unfolding consume_one consume_from
consume_one_settled cl rt at (suc left) sensor r s h t well =
    let run = handle rt (at 1) sensor r s in
    after-state cl (suc left) 1 run (consume_from cl rt at (suc left) sensor r left 2) run.1 refl (
      settled_from cl rt at (suc left) sensor r left 2 run.1
        (λ b. handle_again rt (at 1) b sensor r s t well))
consume_one_settled cl rt at zero sensor r s h t well = absurd (omega arith)
