-- ===== src/Enrich/Greynoise.antt =====
-- `GreyNoiseProvider` of enrichment/providers.py: its cache and its cooldown.
pub mod Quiet
use getarp.Base.Exec.{Result, ok, raise}
use getarp.Base.{
  ℕ, ◌+◌, ◌-◌, String, ◌==◌, Bool, true, false, Option, none, some, [], ◌∷◌, ltb, eqb, or_else,
  if◌then◌else◌,
}
use getarp.Json.{Value, bool, obj, end, field}
use getarp.Enrich.Record.{Enrichment, unknown}
use getarp.Enrich.Memory.{Memory, max_cache, cache_put, cached}
use getarp.Enrich.Http.{
  Reply, unreachable, response, Response, checked_body, wait_of, bad_header, with_error,
  limited_stub,
}

-- the fields of an instance that change
pub record State : Type 0 where
  pub memory : Memory
  pub rate_limited_until : ℕ

-- what is read of the answer
pub record Community : Type 0 where
  pub classification : Option String
  pub name : Option String
  pub raw : Value

-- the clock when the call begins and when its answer is cached
pub record Call : Type 0 where
  pub ip : String
  pub started : ℕ
  pub answered : ℕ
  pub reply : Reply Community

abbrev pub cache_ttl : ℕ
cache_ttl = 3600

-- what a call returns, whether it sent a request, and the state after it
abbrev pub Step : Type 0
Step = Enrichment × Bool × State

-- `{"malicious": "malicious", "benign": "clean"}.get(cls, "unknown")`
abbrev pub verdict : String → String
verdict cls =
    if cls == "malicious" then "malicious" else if cls == "benign" then "clean" else "unknown"

-- the fields read off the answer
unfoldable pub classified : Enrichment → Community → Enrichment
classified e d =
    let cls = or_else d.classification "unknown" in
    record e {
      raw = d.raw;
      reputation = verdict cls;
      is_known_attacker = cls == "malicious";
      org = d.name;
      categories = cls ∷ [];
      confidence = if cls == "malicious" then 80 else 30;
    }

-- `_cache_put(ip, e)` and `return e`
abbrev pub keep_answer : Call → Enrichment → State → Step
keep_answer c e s = (e, true, record s { memory = cache_put max_cache c.ip e c.answered s.memory })

-- the 429: the cooldown counts from the start of the call
unfoldable pub backed_off : ℕ → Call → Enrichment → Response Community → State → Step
backed_off cooldown c e r s = elim (wait_of r.retry_after cooldown) [
  | none ↦ keep_answer c (with_error e bad_header) s
  | some n ↦ (limited_stub e n, true, record s { rate_limited_until = c.started + n })
]

abbrev pub read : Enrichment → Result String Community → Enrichment
read e (raise ex) = with_error e ex
read e (ok d) = classified e d

-- the `try` and what follows it
unfoldable pub settle : ℕ → Call → Enrichment → Reply Community → State → Step
settle cooldown c e (unreachable ex) s = keep_answer c (with_error e ex) s
settle cooldown c e (response r) s =
    if eqb r.status 429
    then backed_off cooldown c e r s
    else if eqb r.status 404
    then keep_answer c (record e { raw = obj (field "not_observed" (bool true) end) }) s
    else keep_answer c (read e (checked_body r)) s

-- the lookup of an address that is not cached
unfoldable pub look_up : ℕ → Call → Enrichment → State → Step
look_up cooldown c e s =
    if ltb c.started s.rate_limited_until
    then (limited_stub e (s.rate_limited_until - c.started), false, s)
    else settle cooldown c e c.reply s

-- `enrich`
unfoldable pub enrich : ℕ → Call → State → Step
enrich cooldown c s = elim (cached cache_ttl c.ip c.started s.memory) [
  | some e ↦ (e, false, s)
  | none ↦ look_up cooldown c (unknown c.ip "greynoise") s
]
