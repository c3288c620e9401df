-- ===== src/Enrich/Virustotal.antt =====
-- `VirusTotalProvider` of enrichment/providers.py: its cache, its daily budget, its back-off, and the
-- interval between requests. Times are in tenths of a second, as the interval is 15.5 s.
-- The budget is looked at before the lock is taken, and other calls begin and end in between.
pub mod Paced
use getarp.Base.Exec.{Result, ok, raise}
use getarp.Base.{
  ◌++◌, length, ℕ, zero, ◌+◌, ◌-◌, ◌*◌, ◌/◌, ◌%◌, String, ◌==◌, Bool, true, false, ◌||◌, Option,
  none, some, List, [], ◌∷◌, ltb, leb, eqb, or_else, if◌then◌else◌,
}
use getarp.Base.Dict.{Dict, get}
use getarp.Json.{Value}
use getarp.Enrich.Record.{Enrichment, unknown}
use getarp.Enrich.Memory.{Memory, max_cache, cache_put, cached}
use getarp.Flight.{pick}
use getarp.Enrich.Http.{
  Header, absent, seconds, garbled, Reply, unreachable, response, Response, checked_body,
  bad_header, with_error, limited_stub, exhausted_stub,
}

-- the fields of an instance that change
pub record State : Type 0 where
  pub memory : Memory
  pub daily_count : ℕ
  pub daily_reset : ℕ
  pub last_request : ℕ
  pub rate_limited_until : ℕ

-- the attributes that are read of the answer; `asn` is the text of its number
pub record Report : Type 0 where
  pub stats : Dict ℕ
  pub country : Option String
  pub asn : String
  pub as_owner : Option String
  pub tags : List String
  pub raw : Value

-- The clock when the call begins, when it looks at the budget, when it has the lock, when it sends its
-- request, when the response is there, and when the call ends.
pub record Call : Type 0 where
  pub ip : String
  pub started : ℕ
  pub checked : ℕ
  pub entered : ℕ
  pub sent : ℕ
  pub received : ℕ
  pub answered : ℕ
  pub reply : Reply Report

abbrev pub tick : ℕ
tick = 10

abbrev pub cache_ttl : ℕ
cache_ttl = 864000

abbrev pub day : ℕ
day = 864000

-- `_MIN_REQUEST_INTERVAL`
abbrev pub min_request_interval : ℕ
min_request_interval = 155

-- what a call returns, and the state after it
abbrev pub Step : Type 0
Step = Enrichment × State

-- `_reset_daily_if_needed`
unfoldable pub reset_daily : ℕ → State → State
reset_daily now s =
    if leb s.daily_reset now
    then record s { daily_count = 0; daily_reset = now - now % day + day }
    else s

-- what the call sleeps once it has the lock
unfoldable pub pause : Call → State → ℕ
pause c s =
    if ltb (c.entered - s.last_request) min_request_interval
    then min_request_interval - (c.entered - s.last_request)
    else 0

-- `sum(stats.values())`
abbrev pub sum_values : Dict ℕ → ℕ
sum_values [] = 0
sum_values ((k, n) ∷ d) = n + sum_values d

abbrev or_one : ℕ → ℕ
or_one n = if eqb n 0 then 1 else n

abbrev pub verdict : ℕ → ℕ → String
verdict malicious suspicious =
    if leb 5 malicious
    then "malicious"
    else if leb 1 malicious || leb 3 suspicious
    then "suspicious"
    else "clean"

-- the fields read off the answer; the confidence is rounded down to hundredths
unfoldable pub reported : Enrichment → Report → Enrichment
reported e d =
    let malicious = or_else (get d.stats "malicious") 0 in
    let suspicious = or_else (get d.stats "suspicious") 0 in
    record e {
      raw = d.raw;
      confidence = malicious * 100 / or_one (sum_values d.stats);
      country = d.country;
      asn = some d.asn;
      org = d.as_owner;
      is_known_attacker = leb 5 malicious;
      reputation = verdict malicious suspicious;
      categories = d.tags;
    }

-- `_cache_put(ip, e)` and `return e`
abbrev pub keep_answer : Call → Enrichment → State → Step
keep_answer c e s = (e, record s { memory = cache_put max_cache c.ip e c.answered s.memory })

-- the response is there: the request counts
abbrev pub counted : Call → State → State
counted c s = record s { last_request = c.received; daily_count = s.daily_count + 1 }

-- `int(resp.headers.get("Retry-After", 60))`
unfoldable pub backed_off : Call → Enrichment → Header → State → Step
backed_off c e absent s =
    (limited_stub e 60, record s { rate_limited_until = c.answered + 60 * tick })
backed_off c e (seconds n) s =
    (limited_stub e n, record s { rate_limited_until = c.answered + n * tick })
backed_off c e garbled s = keep_answer c (with_error e bad_header) s

abbrev pub read : Enrichment → Result String Report → Enrichment
read e (raise ex) = with_error e ex
read e (ok d) = reported e d

-- the `try` and what follows it
unfoldable pub settle : Call → Enrichment → Reply Report → State → Step
settle c e (unreachable ex) s = keep_answer c (with_error e ex) s
settle c e (response r) s =
    if eqb r.status 429
    then backed_off c e r.retry_after (counted c s)
    else if eqb r.status 404
    then keep_answer c (record e { reputation = "clean" }) (counted c s)
    else keep_answer c (read e (checked_body r)) (counted c s)

-- What a call does before it awaits anything: it returns an answer, or it goes on to the lock, with the
-- answer that is to be filled in.
pub data Begun : Type 0 where
  replied asking : Enrichment → Begun

-- from the budget on
unfoldable pub request : ℕ → Call → Enrichment → State → Begun
request quota c e s =
    if leb quota s.daily_count
    then replied (exhausted_stub e s.daily_count (s.daily_reset / tick))
    else if ltb c.started s.rate_limited_until
    then replied (limited_stub e ((s.rate_limited_until - c.started) / tick))
    else asking e

-- the lookup of an address that is not cached; `key` says whether an API key is set
unfoldable pub look_up : Bool → ℕ → Call → Enrichment → State → Begun × State
look_up false quota c e s = (replied (record e { categories = "api-key-missing" ∷ [] }), s)
look_up true quota c e s = let s' = reset_daily c.checked s in (request quota c e s', s')

-- `enrich` up to the lock
unfoldable pub enrich : Bool → ℕ → Call → State → Begun × State
enrich key quota c s = elim (cached cache_ttl c.ip c.started s.memory) [
  | some e ↦ (replied e, s)
  | none ↦ look_up key quota c (unknown c.ip "virustotal") s
]

-- the provider, and the calls that wait for the lock or have it
pub record Flights : Type 0 where
  pub state : State
  pub out : List (Call × Enrichment)

-- a call begins, or the n-th of those that wait has had the lock and gives it back
pub data Op : Type 0 where
  begin : Call → Op
  finish : ℕ → Op

abbrev pub begun : Call → List (Call × Enrichment) → Begun × State → Flights
begun c out (replied e, s) = record { state = s; out = out }
begun c out (asking e, s) = record { state = s; out = out ++ (c, e) ∷ [] }

-- What a call does while it has the lock, and what follows: nothing else that waits for the lock changes
-- the state in between.
abbrev pub finished : Flights → Option ((Call × Enrichment) × List (Call × Enrichment)) → Flights
finished f none = f
finished f (some ((c, e), out)) = record { state = (settle c e c.reply f.state).1; out = out }

-- One step of `loops` coroutines that each handle one message at a time: none begins a call while all of
-- them wait.
unfoldable pub step : Bool → ℕ → ℕ → Op → Flights → Flights
step key quota loops (begin c) f =
    if leb loops (length f.out) then f else begun c f.out (enrich key quota c f.state)
step key quota loops (finish n) f = finished f (pick n f.out)
