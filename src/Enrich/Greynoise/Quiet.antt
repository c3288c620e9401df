-- ===== src/Enrich/Greynoise/Quiet.antt =====
-- The cooldown and the cache of GreyNoise.
use getarp.Base.{
  ℕ, ◌+◌, ◌<◌, true, false, some, List, [], ◌∷◌, ltb, eqb, All, if◌then◌else◌, ◌≡◌, inl, inr, refl,
  arith, Bool-cases, Option-cases,
}
use getarp.Enrich.Record.{Enrichment}
use getarp.Enrich.Memory.{max_cache, cached}
use getarp.Enrich.Memory.Bounded.{IsCache, cache_put-IsCache}
use getarp.Enrich.Http.{Reply, unreachable, response, Response, wait_of}
use getarp.Enrich.Greynoise.{
  State, Community, Call, cache_ttl, keep_answer, backed_off, settle, look_up, enrich,
}

-- calls one after the other: the requests they send, and the state after
unfoldable pub requests : ℕ → List Call → State → ℕ × State
requests cooldown [] s = (0, s)
requests cooldown (c ∷ cs) s =
    let (e, sent, s') = enrich cooldown c s in
    let (n, s'') = requests cooldown cs s' in ((if sent then 1 else 0) + n, s'')

enrich_limited :
    (cooldown : ℕ) (c : Call) (s : State)
    → c.started < s.rate_limited_until
    → ((enrich cooldown c s).1 ≡ false) × ((enrich cooldown c s).2 ≡ s)
unfolding enrich look_up
enrich_limited cooldown c s h = elim (Option-cases (cached cache_ttl c.ip c.started s.memory)) [
  | inl e ↦
      let t : ltb c.started s.rate_limited_until ≡ true = ground arith in
      rw (e, enrich) (simp (t) (refl, refl))
  | inr (a, e) ↦ rw (e, enrich) (refl, refl)
]

-- While the cooldown lasts no request is sent and nothing changes, whatever is asked.
limited_quiet :
    (cooldown : ℕ) (cs : List Call) (s : State)
    → All (λ c. c.started < s.rate_limited_until) cs
    → requests cooldown cs s ≡ (0, s)
unfolding requests
limited_quiet cooldown [] s h = refl
limited_quiet cooldown (c ∷ cs) s h =
    let (quiet, same) = enrich_limited cooldown c s h.0 in
    rw (quiet, same, limited_quiet cooldown cs s h.1) refl

-- a request that is answered 429 starts the cooldown
limited_until :
    (cooldown : ℕ) (c : Call) (s : State) (r : Response Community) (n : ℕ)
    → (enrich cooldown c s).1 ≡ true
    → c.reply ≡ response r
    → r.status ≡ 429
    → wait_of r.retry_after cooldown ≡ some n
    → (enrich cooldown c s).2.rate_limited_until ≡ c.started + n
unfolding enrich look_up settle backed_off
limited_until cooldown c s r n sent reply st w = ground arith

-- After a request that GreyNoise answered with a 429, no request is sent by the calls that begin within
-- the time that the answer asks for, or within the cooldown if it names none, and nothing changes.
pub enrich_quiet :
    (cooldown : ℕ) (c : Call) (s : State) (r : Response Community) (n : ℕ) (cs : List Call)
    → (enrich cooldown c s).1 ≡ true
    → c.reply ≡ response r
    → r.status ≡ 429
    → wait_of r.retry_after cooldown ≡ some n
    → All (λ d. d.started < c.started + n) cs
    → requests cooldown cs (enrich cooldown c s).2 ≡ (0, (enrich cooldown c s).2)
enrich_quiet cooldown c s r n cs sent reply st w early =
    limited_quiet cooldown cs (enrich cooldown c s).2
      (rw (limited_until cooldown c s r n sent reply st w) early)

keep_answer-IsCache :
    (c : Call) (e : Enrichment) (s : State)
    → IsCache max_cache s.memory
    → IsCache max_cache (keep_answer c e s).2.memory
keep_answer-IsCache c e s h = cache_put-IsCache max_cache c.ip e c.answered s.memory (omega arith) h

backed_off-IsCache :
    (cooldown : ℕ) (c : Call) (e : Enrichment) (r : Response Community) (s : State)
    → IsCache max_cache s.memory
    → IsCache max_cache (backed_off cooldown c e r s).2.memory
unfolding backed_off
backed_off-IsCache cooldown c e r s h = elim (Option-cases (wait_of r.retry_after cooldown)) [
  | inl bad ↦ rw (bad, backed_off) (keep_answer-IsCache c _ s h)
  | inr (n, e') ↦ rw (e', backed_off) h
]

settle-IsCache :
    (cooldown : ℕ) (c : Call) (e : Enrichment) (r : Reply Community) (s : State)
    → IsCache max_cache s.memory
    → IsCache max_cache (settle cooldown c e r s).2.memory
unfolding settle
settle-IsCache cooldown c e (unreachable ex) s h = keep_answer-IsCache c _ s h
settle-IsCache cooldown c e (response r) s h = elim (Bool-cases (eqb r.status 429)) [
  | inl busy ↦ rw busy (backed_off-IsCache cooldown c e r s h)
  | inr served ↦ elim (Bool-cases (eqb r.status 404)) [
    | inl missing ↦ rw (served, missing) (keep_answer-IsCache c _ s h)
    | inr there ↦ rw (served, there) (keep_answer-IsCache c _ s h)
  ]
]

-- the cache of GreyNoise is bounded as well
pub enrich-IsCache :
    (cooldown : ℕ) (c : Call) (s : State)
    → IsCache max_cache s.memory
    → IsCache max_cache (enrich cooldown c s).2.memory
unfolding enrich look_up
enrich-IsCache cooldown c s h = elim (Option-cases (cached cache_ttl c.ip c.started s.memory)) [
  | inr (a, e) ↦ rw (e, enrich) h
  | inl e ↦ elim (Bool-cases (ltb c.started s.rate_limited_until)) [
    | inl wait ↦ rw (e, enrich, wait) h
    | inr go ↦ rw (e, enrich, go) (settle-IsCache cooldown c _ c.reply s h)
  ]
]
