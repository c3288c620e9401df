-- ===== src/Enrich/Budget.antt =====
-- `AbuseIPDBProvider` of enrichment/providers.py: its cache, its daily budget and its back-off.
-- The budget is looked at before the request and counted after it, and other calls run in between.
pub mod Daily
use getarp.Base.{
  ◌++◌, ℕ, ◌+◌, ◌-◌, ◌%◌, String, ◌==◌, Bool, true, false, Option, none, some, List, [], ◌∷◌, ltb,
  leb, eqb, length, or_else, if◌then◌else◌,
}
use getarp.Base.Int.{pos}
use getarp.Json.{Value, bool, int, str, obj, end, field}
use getarp.Enrich.Record.{Enrichment, unknown}
use getarp.Flight.{pick}
use getarp.Enrich.Http.{with_error, limited_stub, exhausted_stub}
use getarp.Enrich.Memory.{Memory, max_cache, cache_put, cached}

pub record Budget : Type 0 where
  pub memory : Memory
  pub daily_count : ℕ
  pub daily_reset : ℕ
  pub rate_limited_until : ℕ

-- What a request came to: no response; a 429 with its Retry-After, `none` where that is no number; a
-- response that raises; or the fields of its data, the score a whole number as documented.
pub data Reply : Type 0 where
  unreachable : String → Reply
  limited : Option ℕ → Reply
  rejected : String → Reply
  scored : ℕ → Option String → Option String → Value → Reply

-- the clock when the call begins, when the budget is looked at, and when the reply is there
pub record Call : Type 0 where
  pub ip : String
  pub started : ℕ
  pub checked : ℕ
  pub answered : ℕ
  pub reply : Reply

abbrev pub cache_ttl : ℕ
cache_ttl = 86400

-- `_reset_daily_if_needed`
unfoldable pub reset_daily : ℕ → Budget → Budget
reset_daily now s =
    if leb s.daily_reset now
    then record s { daily_count = 0; daily_reset = now - now % 86400 + 86400 }
    else s

abbrev verdict : ℕ → String
verdict score = if leb 75 score then "malicious" else if leb 25 score then "suspicious" else "clean"

-- `int(...) or 3600`
abbrev retry_after : ℕ → ℕ
retry_after n = if eqb n 0 then 3600 else n

-- what a call returns, and the state after it
abbrev pub Step : Type 0
Step = Enrichment × Budget

-- the request was answered: it counts
abbrev pub counted : Budget → Budget
counted s = record s { daily_count = s.daily_count + 1 }

-- the fields that are read off the data
abbrev pub scored_answer : Enrichment → ℕ → Option String → Option String → Value → Enrichment
scored_answer e score country isp raw = record e {
  raw = raw;
  confidence = score;
  country = country;
  org = isp;
  is_known_attacker = leb 50 score;
  reputation = verdict score;
}

-- `_cache_put(ip, e)` and `return e`
abbrev pub keep_answer : Call → Enrichment → Budget → Step
keep_answer c e s = (e, record s { memory = cache_put max_cache c.ip e c.answered s.memory })

-- the `try` and what follows it
unfoldable pub settle : Call → Enrichment → Reply → Budget → Step
settle c e (unreachable ex) s = keep_answer c (with_error e ex) s
settle c e (limited none) s = keep_answer c (with_error e "invalid literal for int()") (counted s)
settle c e (limited (some n)) s = (
  limited_stub e (retry_after n),
  record (counted s) { rate_limited_until = c.answered + retry_after n },
)
settle c e (rejected ex) s = keep_answer c (with_error e ex) (counted s)
settle c e (scored score country isp raw) s =
    keep_answer c (scored_answer e score country isp raw) (counted s)

-- What a call does before it awaits anything: it returns an answer, or it goes on to its request, with
-- the answer that is to be filled in.
pub data Begun : Type 0 where
  replied asking : Enrichment → Begun

-- from the budget on
unfoldable pub request : ℕ → Call → Enrichment → Budget → Begun
request quota c e s =
    if leb quota s.daily_count
    then replied (exhausted_stub e s.daily_count s.daily_reset)
    else if ltb c.started s.rate_limited_until
    then replied (limited_stub e (s.rate_limited_until - c.started))
    else asking e

-- the lookup of an address that is not cached; `key` says whether an API key is set
unfoldable pub look_up : Bool → ℕ → Call → Enrichment → Budget → Begun × Budget
look_up false quota c e s = (replied (record e { categories = "api-key-missing" ∷ [] }), s)
look_up true quota c e s = let s' = reset_daily c.checked s in (request quota c e s', s')

-- `enrich` up to its request
unfoldable pub enrich : Bool → ℕ → Call → Budget → Begun × Budget
enrich key quota c s = elim (cached cache_ttl c.ip c.started s.memory) [
  | some e ↦ (replied e, s)
  | none ↦ look_up key quota c (unknown c.ip "abuseipdb") s
]

-- the provider, and the calls whose requests are out
pub record Flights : Type 0 where
  pub budget : Budget
  pub out : List (Call × Enrichment)

-- a call begins, or the n-th of the requests that are out has come to its end
pub data Op : Type 0 where
  begin : Call → Op
  finish : ℕ → Op

abbrev pub begun : Call → List (Call × Enrichment) → Begun × Budget → Flights
begun c out (replied e, s) = record { budget = s; out = out }
begun c out (asking e, s) = record { budget = s; out = out ++ (c, e) ∷ [] }

-- `enrich` from its request on
abbrev pub finished : Flights → Option ((Call × Enrichment) × List (Call × Enrichment)) → Flights
finished f none = f
finished f (some ((c, e), out)) = record { budget = (settle c e c.reply f.budget).1; out = out }

-- One step of `loops` coroutines that each handle one message at a time: none begins a call while all of
-- them wait.
unfoldable pub step : Bool → ℕ → ℕ → Op → Flights → Flights
step key quota loops (begin c) f =
    if leb loops (length f.out) then f else begun c f.out (enrich key quota c f.budget)
step key quota loops (finish n) f = finished f (pick n f.out)
