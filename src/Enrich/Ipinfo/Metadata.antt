-- ===== src/Enrich/Ipinfo/Metadata.antt =====
-- What an answer of IPinfo holds.
use getarp.Base.Exec.{Result, ok, raise}
use getarp.Base.{
  ℕ, String, ◌==◌, Bool, true, false, ◌||◌, some, ltb, leb, eqb, ◌≡◌, inl, inr, refl, ◌∙◌, arith,
  Bool-cases, Option-cases,
}
use getarp.Base.Dict.{get, get-put, get-remove}
use getarp.Enrich.Record.{Enrichment, unknown}
use getarp.Enrich.Memory.{Memory, max_cache, old_key, without, cache_put, cached}
use getarp.Enrich.Http.{Reply, unreachable, response, Response, checked_body, wait_of, with_error}
use getarp.Enrich.Ipinfo.{
  Limits, State, Lite, Call, Step, reset_daily, located, backed_off, refused, read, counted, settle,
  request, budgeted, look_up, enrich, keep_answer,
}

-- an answer that says nothing of the reputation
pub record IsMetadata (e : Enrichment) : Type 0 where
  pub reputation : e.reputation ≡ "unknown"
  pub confidence : e.confidence ≡ 0
  pub innocent : e.is_known_attacker ≡ false

-- all that is cached is such an answer
abbrev pub HoldsMetadata : Memory → Type 0
HoldsMetadata m = (ip : String) (e : Enrichment) → get m.cache ip ≡ some e → IsMetadata e

abbrev Keeps : Step → Type 0
Keeps t = IsMetadata t.0 × HoldsMetadata t.2.memory

cache_put-HoldsMetadata :
    (max : ℕ) (ip : String) (e : Enrichment) (now : ℕ) (m : Memory)
    → IsMetadata e
    → HoldsMetadata m
    → HoldsMetadata (cache_put max ip e now m)
unfolding cache_put
cache_put-HoldsMetadata max ip e now m he hm j f g =
    let old = old_key max m.cache m.cache_ts in
    let from_put = get-put ip e (without old m.cache) j in
    elim (Bool-cases (j == ip)) [
      | inl same ↦ let q : e ≡ f = ground arith in rw (← q) he
      | inr other ↦ elim (Option-cases old) [
        | inl none' ↦ hm j f (ground arith)
        | inr (k, some') ↦ hm j f (ground (arith, get-remove k m.cache j))
      ]
    ]

keep_answer-Keeps :
    (c : Call) (e : Enrichment) (s : State)
    → IsMetadata e
    → HoldsMetadata s.memory
    → Keeps (keep_answer c e s)
keep_answer-Keeps c e s he h =
    (he, cache_put-HoldsMetadata max_cache c.ip e c.answered s.memory he h)

located-IsMetadata : (e : Enrichment) (d : Lite) → IsMetadata e → IsMetadata (located e d)
unfolding located
located-IsMetadata e d h = ground arith

error-IsMetadata : (e : Enrichment) (ex : String) → IsMetadata e → IsMetadata (with_error e ex)
error-IsMetadata e ex h = record {
  reputation = h.reputation;
  confidence = h.confidence;
  innocent = h.innocent;
}

-- a stub that leaves the verdict alone
stub-IsMetadata :
    (e f : Enrichment)
    → f.reputation ≡ e.reputation
    → f.confidence ≡ e.confidence
    → f.is_known_attacker ≡ e.is_known_attacker
    → IsMetadata e
    → IsMetadata f
stub-IsMetadata e f p q r he = record {
  reputation = p ∙ he.reputation;
  confidence = q ∙ he.confidence;
  innocent = r ∙ he.innocent;
}

read-Keeps :
    (c : Call) (e : Enrichment) (b : Result String Lite) (s : State)
    → IsMetadata e
    → HoldsMetadata s.memory
    → Keeps (read c e b s)
unfolding read
read-Keeps c e (raise ex) s he h = (error-IsMetadata e ex he, h)
read-Keeps c e (ok d) s he h = keep_answer-Keeps c (located e d) s (located-IsMetadata e d he) h

backed_off-Keeps :
    (l : Limits) (c : Call) (e : Enrichment) (r : Response Lite) (s : State)
    → IsMetadata e
    → HoldsMetadata s.memory
    → Keeps (backed_off l c e r s)
unfolding backed_off
backed_off-Keeps l c e r s he h = elim (Option-cases (wait_of r.retry_after l.cooldown)) [
  | inl bad ↦ rw (bad, backed_off) (error-IsMetadata e _ he, h)
  | inr (n, w) ↦ rw (w, backed_off) (stub-IsMetadata e _ refl refl refl he, h)
]

settle-Keeps :
    (l : Limits) (c : Call) (e : Enrichment) (r : Reply Lite) (s : State)
    → IsMetadata e
    → HoldsMetadata s.memory
    → Keeps (settle l c e r s)
unfolding settle refused
settle-Keeps l c e (unreachable ex) s he h = (error-IsMetadata e ex he, h)
settle-Keeps l c e (response r) s he h = elim (Bool-cases (eqb r.status 429)) [
  | inl busy ↦ rw busy (backed_off-Keeps l c e r (counted s) he h)
  | inr served ↦ elim (Bool-cases (eqb r.status 401 || eqb r.status 403)) [
    | inl bad ↦ rw (served, bad) (stub-IsMetadata e _ refl refl refl he, h)
    | inr good ↦ rw (served, good) (read-Keeps c e (checked_body r) (counted s) he h)
  ]
]

request-Keeps :
    (l : Limits) (c : Call) (e : Enrichment) (s : State)
    → IsMetadata e
    → HoldsMetadata s.memory
    → Keeps (request l c e s)
unfolding request
request-Keeps l c e s he h = elim (Bool-cases (ltb c.started s.rate_limited_until)) [
  | inl wait ↦ rw wait (stub-IsMetadata e _ refl refl refl he, h)
  | inr go ↦ rw go (settle-Keeps l c e c.reply s he h)
]

reset_daily_memory : (now : ℕ) (s : State) → (reset_daily now s).memory ≡ s.memory
unfolding reset_daily
reset_daily_memory now s = ground arith

budgeted-Keeps :
    (l : Limits) (c : Call) (e : Enrichment) (s : State)
    → IsMetadata e
    → HoldsMetadata s.memory
    → Keeps (budgeted l c e s)
unfolding budgeted
budgeted-Keeps l c e s he h =
    let s' = reset_daily c.checked s in
    let h' : HoldsMetadata s'.memory = rw (reset_daily_memory c.checked s) h in
    elim (Bool-cases (eqb l.daily_quota 0)) [
      | inl free ↦ rw free (request-Keeps l c e s he h)
      | inr bound ↦ elim (Bool-cases (leb l.daily_quota s'.daily_count)) [
        | inl spent ↦ rw (bound, spent) (stub-IsMetadata e _ refl refl refl he, h')
        | inr left ↦ rw (bound, left) (request-Keeps l c e s' he h')
      ]
    ]

look_up-Keeps :
    (token : Bool) (l : Limits) (c : Call) (e : Enrichment) (s : State)
    → IsMetadata e
    → HoldsMetadata s.memory
    → Keeps (look_up token l c e s)
unfolding look_up
look_up-Keeps false l c e s he h = (stub-IsMetadata e _ refl refl refl he, h)
look_up-Keeps true l c e s he h = budgeted-Keeps l c e s he h

unknown-IsMetadata : (ip : String) → IsMetadata (unknown ip "ipinfo")
unknown-IsMetadata ip = record { reputation = refl; confidence = refl; innocent = refl }

-- Whatever IPinfo answers, errors, refusals and cached answers included, the result says nothing of
-- the reputation: it is unknown, with no confidence, and no known attacker; and so is all that is cached
-- then, if it was before.
pub enrich-IsMetadata :
    (token : Bool) (l : Limits) (c : Call) (s : State)
    → HoldsMetadata s.memory
    → IsMetadata (enrich token l c s).0 × HoldsMetadata (enrich token l c s).2.memory
unfolding enrich
enrich-IsMetadata token l c s h = elim (Option-cases (cached l.cache_ttl c.ip c.started s.memory)) [
  | inl e ↦
      rw (e, enrich) (look_up-Keeps token l c (unknown c.ip "ipinfo") s (unknown-IsMetadata c.ip) h)
  | inr (a, e) ↦ rw (e, enrich) (h c.ip a (unfold cached in ground arith), h)
]
