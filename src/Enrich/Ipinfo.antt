-- ===== src/Enrich/Ipinfo.antt =====
-- `IPinfoProvider` of enrichment/providers.py: metadata only, with an optional daily budget, and a
-- back-off on a 429 and on a token that is refused.
pub mod Metadata
use Prim.Native.Char.{code}
use getarp.Base.Exec.{Result, ok, raise}
use getarp.Base.{
  ℕ, zero, ◌+◌, ◌-◌, ◌%◌, String, ◌==◌, Bool, true, false, ◌||◌, ◌&&◌, Option, none, some, List, [],
  ◌∷◌, ltb, leb, eqb, text_drop, if◌then◌else◌,
}
use getarp.Base.Int.{pos}
use getarp.Json.{Value, bool, int, obj, end, field}
use getarp.Enrich.Record.{Enrichment, unknown}
use getarp.Enrich.Memory.{Memory, max_cache, cache_put, cached}
use getarp.Enrich.Http.{
  Reply, unreachable, response, Response, checked_body, wait_of, bad_header, with_error,
  limited_stub, exhausted_stub,
}

-- the settings: `cache_ttl`, `cooldown`, and `daily_quota`, where 0 is no budget
pub record Limits : Type 0 where
  pub cache_ttl : ℕ
  pub cooldown : ℕ
  pub daily_quota : ℕ

-- the fields of an instance that change
pub record State : Type 0 where
  pub memory : Memory
  pub daily_count : ℕ
  pub daily_reset : ℕ
  pub rate_limited_until : ℕ

-- what is read of the answer; `asn` is `""` where there is none
pub record Lite : Type 0 where
  pub bogon : Bool
  pub country_code : Option String
  pub asn : String
  pub as_name : Option String
  pub raw : Value

-- the clock when the call begins, when it looks at the budget, and when the reply is there
pub record Call : Type 0 where
  pub ip : String
  pub started : ℕ
  pub checked : ℕ
  pub answered : ℕ
  pub reply : Reply Lite

abbrev pub auth_cooldown : ℕ
auth_cooldown = 3600

-- what a call returns, whether it sent a request, and the state after it
abbrev pub Step : Type 0
Step = Enrichment × Bool × State

-- `_reset_daily_if_needed`
unfoldable pub reset_daily : ℕ → State → State
reset_daily now s =
    if leb s.daily_reset now
    then record s { daily_count = 0; daily_reset = now - now % 86400 + 86400 }
    else s

abbrev or_none : String → Option String
or_none s = if s == "" then none else some s

-- the letters whose `upper` is "S"
abbrev pub is_s : ℕ → Bool
is_s n = eqb n 83 || eqb n 115 || eqb n 383

-- `asn.upper().startswith("AS")`
unfoldable pub is_prefixed : String → Bool
is_prefixed (String.◌∷◌ a (String.◌∷◌ b s)) = (eqb (code a) 65 || eqb (code a) 97) && is_s (code b)
is_prefixed s = false

-- `asn[2:] if asn.upper().startswith("AS") else asn or None`
unfoldable pub bare_asn : String → Option String
bare_asn asn = if is_prefixed asn then some (text_drop 2 asn) else or_none asn

-- `_cache_put(ip, e)` and `return e`
abbrev pub keep_answer : Call → Enrichment → State → Step
keep_answer c e s = (e, true, record s { memory = cache_put max_cache c.ip e c.answered s.memory })

-- the `except`: the answer is not cached
abbrev pub give_up : Enrichment → String → State → Step
give_up e ex s = (with_error e ex, true, s)

-- the fields read off the answer
unfoldable pub located : Enrichment → Lite → Enrichment
located e d =
    if d.bogon
    then record e { raw = d.raw; categories = "bogon" ∷ [] }
    else record e { raw = d.raw; country = d.country_code; asn = bare_asn d.asn; org = d.as_name }

-- the 429
unfoldable pub backed_off : Limits → Call → Enrichment → Response Lite → State → Step
backed_off l c e r s = elim (wait_of r.retry_after l.cooldown) [
  | none ↦ give_up e bad_header s
  | some n ↦ (limited_stub e n, true, record s { rate_limited_until = c.answered + n })
]

-- a refused token
unfoldable pub refused : Call → Enrichment → ℕ → State → Step
refused c e status s = (
  record e {
    categories = "api-key-invalid" ∷ [];
    raw = obj (field "auth_failed" (bool true) (field "status" (int (pos status)) end));
  },
  true,
  record s { rate_limited_until = c.answered + auth_cooldown },
)

unfoldable pub read : Call → Enrichment → Result String Lite → State → Step
read c e (raise ex) s = give_up e ex s
read c e (ok d) s = keep_answer c (located e d) s

-- the response is there: the request counts
abbrev pub counted : State → State
counted s = record s { daily_count = s.daily_count + 1 }

-- the `try` and what follows it
unfoldable pub settle : Limits → Call → Enrichment → Reply Lite → State → Step
settle l c e (unreachable ex) s = give_up e ex s
settle l c e (response r) s =
    if eqb r.status 429
    then backed_off l c e r (counted s)
    else if eqb r.status 401 || eqb r.status 403
    then refused c e r.status (counted s)
    else read c e (checked_body r) (counted s)

-- the back-off, then the request
unfoldable pub request : Limits → Call → Enrichment → State → Step
request l c e s =
    if ltb c.started s.rate_limited_until
    then (limited_stub e (s.rate_limited_until - c.started), false, s)
    else settle l c e c.reply s

-- `if self._daily_quota`
unfoldable pub budgeted : Limits → Call → Enrichment → State → Step
budgeted l c e s =
    let s' = reset_daily c.checked s in
    if eqb l.daily_quota 0
    then request l c e s
    else if leb l.daily_quota s'.daily_count
    then (exhausted_stub e s'.daily_count s'.daily_reset, false, s')
    else request l c e s'

-- the lookup of an address that is not cached; `token` says whether a token is set
unfoldable pub look_up : Bool → Limits → Call → Enrichment → State → Step
look_up false l c e s = (record e { categories = "api-key-missing" ∷ [] }, false, s)
look_up true l c e s = budgeted l c e s

-- `enrich`
unfoldable pub enrich : Bool → Limits → Call → State → Step
enrich token l c s = elim (cached l.cache_ttl c.ip c.started s.memory) [
  | some e ↦ (e, false, s)
  | none ↦ look_up token l c (unknown c.ip "ipinfo") s
]
