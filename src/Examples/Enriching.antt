-- ===== src/Examples/Enriching.antt =====
-- The providers and the worker on an address that AbuseIPDB and a feed know.
use getarp.Base.Exec.{raise}
use getarp.Base.{
  List, ◌-◌, length, ℕ, zero, suc, ◌-◌, text_append, text_length, ◌+◌, ◌≤◌, max, String, true,
  false, none, some, [], ◌∷◌, ◌≡◌, refl, arith,
}
use getarp.Json.{obj, end}
use getarp.Enrich.Record.{Enrichment, fetched, failed, unknown}
use getarp.Enrich.Merge.{merge_enrichments}
use getarp.Enrich.Merge.Described.{Merged}
use getarp.Enrich.Merge.Worst.{merge_enrichments-Merged}
use getarp.Enrich.Tiered.{Gates, Activity}
use getarp.Enrich.Budget.{
  Budget, Call, scored, limited, Flights, Op, begin, finish, step, enrich, look_up, request,
  reset_daily, settle,
}
use getarp.Base.Dict.{get}
use getarp.Enrich.Memory.{cached}
use getarp.Flight.{pick}
use getarp.Enrich.Budget.Daily.{spend, spend_lem}
use getarp.Enrich.Worker.{Message, World, Circumstances}
use getarp.Examples.Data.{reset}

abbrev listed : Enrichment
listed = record (unknown "203.0.113.9" "feodo") {
  reputation = "malicious";
  is_known_attacker = true;
  confidence = 90;
  categories = "feodo-c2" ∷ [];
}

abbrev benign : Enrichment
benign = record (unknown "203.0.113.9" "greynoise") {
  reputation = "clean";
  confidence = 30;
  country = some "NL";
}

merge_enrichments-Merged_example :
    Merged (("greynoise", fetched benign) ∷ ("abuseipdb", failed "timeout") ∷ []) (
      merge_enrichments "203.0.113.9" "multi"
        (("greynoise", fetched benign) ∷ ("abuseipdb", failed "timeout") ∷ []))
merge_enrichments-Merged_example =
    merge_enrichments-Merged "203.0.113.9" "multi"
      (("greynoise", fetched benign) ∷ ("abuseipdb", failed "timeout") ∷ [])

abbrev gates : Gates
gates = record { min_events = 10; min_score = 30; high_score = 60 }

abbrev quiet : Activity
quiet = record { events = 3; score = 0 }

abbrev loud : Activity
loud = record { events = 50; score = 80 }

abbrev fresh_budget : Budget
fresh_budget = record {
  memory = record { cache = []; cache_ts = [] };
  daily_count = 0;
  daily_reset = 86400;
  rate_limited_until = 0;
}

abbrev first_call : Call
first_call = record {
  ip = "203.0.113.9";
  started = 1000;
  checked = 1000;
  answered = 1001;
  reply = scored 80 (some "NL") none (obj end);
}

abbrev second_call : Call
second_call = record {
  ip = "203.0.113.10";
  started = 1005;
  checked = 1005;
  answered = 1006;
  reply = limited (some 60);
}

abbrev idle_flights : Flights
idle_flights = record { budget = fresh_budget; out = [] }

-- both calls look at the budget before either of them is answered
abbrev together : List Op
together = begin first_call ∷ begin second_call ∷ finish 1 ∷ finish 0 ∷ []

spend_lem_example :
    let (n, f') = spend true 1 2 together idle_flights in
    (f'.budget.daily_count ≡ n + 0)
    × (f'.budget.daily_count + length f'.out ≤ max (1 + (2 - 1)) (0 + 0))
spend_lem_example =
    spend_lem true 1 2 together idle_flights (omega arith, (omega arith, (tt, (tt, tt))))

-- the quota of one request is exceeded by one
overspent : (spend true 1 2 together idle_flights).1.budget.daily_count ≡ 2
unfolding spend step enrich look_up request reset_daily settle pick cached get
overspent = refl

-- numerals as tallies, with one stroke more than the number
pub tally : ℕ → String
tally zero = "|"
tally (suc n) = text_append "|" (tally n)

abbrev pub entry : Message
entry = record { src_ip = some "203.0.113.9"; force = none; attempt = none }

abbrev pub redis_well : Circumstances
redis_well = record {
  parse_ip = λ s. true;
  int_of = λ s. some (text_length s - 1);
  str_of = tally;
  now = 100;
  fresh_fault = none;
  answer = raise reset;
  upsert_fault = none;
  hint_fault = none;
  xadd_fails = false;
  ack_fails = false;
}

abbrev pub idle_world : World
idle_world = record { rows = []; scores = ("203.0.113.9", 10) ∷ []; queue = []; acked = [] }
