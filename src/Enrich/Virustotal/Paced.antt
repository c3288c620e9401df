-- ===== src/Enrich/Virustotal/Paced.antt =====
-- VirusTotal's two limits: requests a day, and the time between requests.
use getarp.Base.{
  none, some, ◌-◌, Option, length, length-append, ℕ, ◌+◌, ◌*◌, ◌≤◌, ◌<◌, max, Bool, true, false,
  List, [], ◌∷◌, ltb, leb, eqb, ◌≡◌, inl, inr, refl, arith, leb→lt, Bool-cases, Option-cases,
}
use getarp.Enrich.Record.{Enrichment, unknown}
use getarp.Enrich.Memory.{cached}
use getarp.Enrich.Http.{Header, absent, seconds, garbled, Reply, unreachable, response}
use getarp.Flight.{pick, length-pick}
use getarp.Enrich.Virustotal.{
  Flights, Op, begin, finish, begun, finished, step, State, Report, Call, cache_ttl,
  min_request_interval, reset_daily, pause, backed_off, settle, request, look_up, enrich, counted,
}

abbrev was_answered : Reply Report → ℕ
was_answered (unreachable ex) = 0
was_answered (response r) = 1

-- whether the request of the call that gives the lock back was answered
abbrev answers : Op → Flights → ℕ
answers (begin c) f = 0
answers (finish n) f = elim (pick n f.out) [ none ↦ 0 | some ((c, e), out) ↦ was_answered c.reply ]

-- the requests that are answered in these steps, and what the steps lead to
unfoldable pub spend : Bool → ℕ → ℕ → List Op → Flights → ℕ × Flights
spend key quota loops [] f = (0, f)
spend key quota loops (op ∷ ops) f =
    let (n, f') = spend key quota loops ops (step key quota loops op f) in (answers op f + n, f')

-- a call that has the lock after the last response, and sleeps as long as it asks for
pub record IsPaced (c : Call) (s : State) : Type 0 where
  pub after : s.last_request ≤ c.entered
  pub slept : c.entered + pause c s ≤ c.sent
  pub waited : c.sent ≤ c.received

abbrev pub IsPacedAt : Option ((Call × Enrichment) × List (Call × Enrichment)) → State → Type 0
IsPacedAt none s = Unit
IsPacedAt (some ((c, e), out)) s = IsPaced c s

-- the budget is looked at before it is due to be reset, and the clock goes on while the lock is held
abbrev pub IsOrderly : Op → Flights → Type 0
IsOrderly (begin c) f = c.checked < f.state.daily_reset
IsOrderly (finish n) f = IsPacedAt (pick n f.out) f.state

abbrev pub AreOrderly : Bool → ℕ → ℕ → List Op → Flights → Type 0
AreOrderly key quota loops [] f = Unit
AreOrderly key quota loops (op ∷ ops) f =
    IsOrderly op f × AreOrderly key quota loops ops (step key quota loops op f)

-- what a step leaves of the limits that it found
record Spent (quota loops n : ℕ) (f f' : Flights) : Type 0 where
  count : f'.state.daily_count ≡ n + f.state.daily_count
  bound :
      f'.state.daily_count + length f'.out
      ≤ max (quota + (loops - 1)) (f.state.daily_count + length f.out)
  paced : f.state.last_request + min_request_interval * n ≤ f'.state.last_request

idle-Spent : (quota loops : ℕ) (f : Flights) → Spent quota loops 0 f f
idle-Spent quota loops f = record { count = omega arith; bound = omega arith; paced = omega arith }

backed_off_state :
    (c : Call) (e : Enrichment) (h : Header) (s : State)
    → ((backed_off c e h s).1.daily_count ≡ s.daily_count)
      × ((backed_off c e h s).1.last_request ≡ s.last_request)
      × ((backed_off c e h s).1.daily_reset ≡ s.daily_reset)
unfolding backed_off
backed_off_state c e absent s = (refl, refl, refl)
backed_off_state c e (seconds n) s = (refl, refl, refl)
backed_off_state c e garbled s = (refl, refl, refl)

settle_state :
    (c : Call) (e : Enrichment) (r : Reply Report) (s : State)
    → let t = settle c e r s in
      (t.1.daily_count ≡ was_answered r + s.daily_count)
      × (t.1.last_request ≡ elim r [ unreachable ex ↦ s.last_request | response r ↦ c.received ])
      × (t.1.daily_reset ≡ s.daily_reset)
unfolding settle
settle_state c e (unreachable ex) s = (omega arith, refl, refl)
settle_state c e (response r) s = elim (Bool-cases (eqb r.status 429)) [
  | inl busy ↦
      let (n, l, d) = backed_off_state c e r.retry_after (counted c s) in
      rw busy (omega (arith, n), l, d)
  | inr served ↦ elim (Bool-cases (eqb r.status 404)) [
    | inl missing ↦ rw (served, missing) (omega arith, refl, refl)
    | inr there ↦ rw (served, there) (omega arith, refl, refl)
  ]
]

reset_daily_early : (now : ℕ) (s : State) → now < s.daily_reset → reset_daily now s ≡ s
unfolding reset_daily
reset_daily_early now s h = ground arith

module _ (quota loops : ℕ) (c : Call) (f : Flights) (free : length f.out < loops) where
  request-Spent :
      (e : Enrichment) → Spent quota loops 0 f (begun c f.out (request quota c e f.state, f.state))
  unfolding request
  request-Spent e = elim (Bool-cases (leb quota f.state.daily_count)) [
    | inl full ↦ rw full (idle-Spent quota loops f)
    | inr left ↦ elim (Bool-cases (ltb c.started f.state.rate_limited_until)) [
      | inl wait ↦ rw (left, wait) (idle-Spent quota loops f)
      | inr go ↦
          rw (left, go)
            (record {
              count = omega arith;
              paced = omega arith;
              bound = omega (
                arith,
                leb→lt quota f.state.daily_count left,
                length-append f.out ((c, e) ∷ []),
                free,
              );
            })
    ]
  ]

  look_up-Spent :
      (key : Bool) (e : Enrichment)
      → c.checked < f.state.daily_reset
      → Spent quota loops 0 f (begun c f.out (look_up key quota c e f.state))
  unfolding look_up
  look_up-Spent false e h = idle-Spent quota loops f
  look_up-Spent true e h = rw (reset_daily_early c.checked f.state h) (request-Spent e)

  enrich-Spent :
      (key : Bool)
      → c.checked < f.state.daily_reset
      → Spent quota loops 0 f (begun c f.out (enrich key quota c f.state))
  unfolding enrich
  enrich-Spent key h = elim (Option-cases (cached cache_ttl c.ip c.started f.state.memory)) [
    | inl e ↦ rw (e, enrich) (look_up-Spent key (unknown c.ip "virustotal") h)
    | inr (a, e) ↦ rw (e, enrich) (idle-Spent quota loops f)
  ]

answered_le : (r : Reply Report) → was_answered r ≤ 1
answered_le (unreachable ex) = omega arith
answered_le (response r) = omega arith

settle_paced :
    (c : Call) (e : Enrichment) (r : Reply Report) (s : State)
    → IsPaced c s
    → s.last_request + min_request_interval * was_answered r ≤ (settle c e r s).1.last_request
unfolding pause
settle_paced c e (unreachable ex) s p =
    let (n, l, d) = settle_state c e (unreachable ex) s in omega (arith, l)
settle_paced c e (response r) s p =
    let (n, l, d) = settle_state c e (response r) s in
    let slept = p.slept in let after = p.after in let waited = p.waited in ground arith

finished-Spent :
    (quota loops n : ℕ) (f : Flights) (o : Option ((Call × Enrichment) × List (Call × Enrichment)))
    → pick n f.out ≡ o
    → IsPacedAt o f.state
    → Spent quota loops
        (elim o [ none ↦ 0 | some ((c, e), out) ↦ was_answered c.reply ])
        f
        (finished f o)
finished-Spent quota loops n f none h p = idle-Spent quota loops f
finished-Spent quota loops n f (some ((c, e), out)) h p =
    let (k, l, d) = settle_state c e c.reply f.state in
    record {
      count = k;
      bound = omega (arith, k, answered_le c.reply, length-pick n f.out (c, e) out h);
      paced = settle_paced c e c.reply f.state p;
    }

step-Spent :
    (key : Bool) (quota loops : ℕ) (op : Op) (f : Flights)
    → IsOrderly op f
    → Spent quota loops (answers op f) f (step key quota loops op f)
unfolding step
step-Spent key quota loops (finish n) f h = finished-Spent quota loops n f (pick n f.out) refl h
step-Spent key quota loops (begin c) f h = elim (Bool-cases (leb loops (length f.out))) [
  | inl busy ↦ rw busy (idle-Spent quota loops f)
  | inr free ↦ rw free (enrich-Spent quota loops c f (leb→lt loops (length f.out) free) key h)
]

-- Of `loops` coroutines that each handle one message at a time, in whatever order their calls begin and
-- have the lock, if each sleeps as long as it asks for and the budget is looked at before it is due to be
-- reset: the daily count rises by the requests that are answered, and, together with the calls that wait,
-- stays at most the quota and one less than the coroutines, or where it was if it already exceeded that;
-- and every request that is answered takes at least 15.5 seconds from the last response to its own.
pub spend_paced :
    (key : Bool) (quota loops : ℕ) (ops : List Op) (f : Flights)
    → AreOrderly key quota loops ops f
    → let (n, f') = spend key quota loops ops f in
      (f'.state.daily_count ≡ n + f.state.daily_count)
      × (f'.state.daily_count + length f'.out
          ≤ max (quota + (loops - 1)) (f.state.daily_count + length f.out))
      × (f.state.last_request + min_request_interval * n ≤ f'.state.last_request)
unfolding spend
spend_paced key quota loops [] f h = (omega arith, omega arith, omega arith)
spend_paced key quota loops (op ∷ ops) f h =
    let p = step-Spent key quota loops op f h.0 in
    let q = spend_paced key quota loops ops (step key quota loops op f) h.1 in
    (omega (arith, p.count, q.0), omega (arith, p.bound, q.1), omega (arith, p.paced, q.2))
