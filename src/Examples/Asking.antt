-- ===== src/Examples/Asking.antt =====
-- The providers asked one after the other, their answers good and bad.
use getarp.Base.Dict.{get}
use getarp.Base.Exec.{ok, raise}
use getarp.Base.{
  ◌-◌, length, ℕ, ◌+◌, ◌*◌, ◌≤◌, max, String, true, false, none, some, List, [], ◌∷◌, elem, keep,
  text_drop, ◌≡◌, refl, arith,
}
use getarp.Json.{obj, end}
use getarp.Enrich.Http.{Response, response, unreachable, absent, wait_of}
use getarp.Enrich.Memory.{cached}
use getarp.Enrich.Greynoise
use getarp.Enrich.Greynoise.{look_up, settle, backed_off, Community}
use getarp.Enrich.Greynoise.Quiet.{requests, enrich_quiet}
use getarp.Enrich.Virustotal
use getarp.Enrich.Virustotal.{Report, min_request_interval}
use getarp.Enrich.Virustotal.Paced.{AreOrderly, spend, spend_paced}
use getarp.Flight.{pick}
use getarp.Enrich.Ipinfo
use getarp.Enrich.Ipinfo.{Lite, Limits, bare_asn}
use getarp.Enrich.Crowdsec
use getarp.Enrich.Crowdsec.{Decision, is_local}
use getarp.Enrich.Crowdsec.Bans.{scenarios_for}
use getarp.Enrich.Abusech
use getarp.Enrich.Abusech.{load_cache, failed, got}
use getarp.Enrich.Abusech.Listed.{run, restart-run}
use getarp.Enrich.Blocklist.{parse}
use getarp.Enrich.Blocklist.Printed.{Line, listed, remark, print, addresses, elem-parse-print}

abbrev busy : Response Community
busy = record { status = 429; retry_after = absent; error = "busy"; body = raise "busy" }

abbrev noise_call : ℕ → Greynoise.Call
noise_call t = record { ip = "203.0.113.9"; started = t; answered = t; reply = response busy }

abbrev new_noise : Greynoise.State
new_noise = record { memory = record { cache = []; cache_ts = [] }; rate_limited_until = 0 }

enrich_quiet_example :
    requests 21600
      (noise_call 200 ∷ noise_call 21000 ∷ [])
      (Greynoise.enrich 21600 (noise_call 100) new_noise).2
    ≡ (0, (Greynoise.enrich 21600 (noise_call 100) new_noise).2)
unfolding Greynoise.enrich cached look_up settle backed_off wait_of get
enrich_quiet_example =
    enrich_quiet 21600 (noise_call 100) new_noise busy 21600
      (noise_call 200 ∷ noise_call 21000 ∷ []) refl refl refl refl (omega arith)

abbrev report : Report
report = record {
  stats = ("malicious", 7) ∷ ("harmless", 63) ∷ [];
  country = some "NL";
  asn = "64496";
  as_owner = none;
  tags = [];
  raw = obj end;
}

abbrev vt_call : ℕ → ℕ → String → Virustotal.Call
vt_call t sent ip = record {
  ip = ip;
  started = t;
  checked = t;
  entered = t;
  sent = sent;
  received = sent + 5;
  answered = sent + 5;
  reply = response (record { status = 200; retry_after = absent; error = ""; body = ok report });
}

abbrev vt_state : Virustotal.State
vt_state = record {
  memory = record { cache = []; cache_ts = [] };
  daily_count = 0;
  daily_reset = 864000;
  last_request = 0;
  rate_limited_until = 0;
}

abbrev vt_flights : Virustotal.Flights
vt_flights = record { state = vt_state; out = [] }

abbrev vt_ops : List Virustotal.Op
vt_ops = Virustotal.begin (vt_call 1000 1000 "203.0.113.9") ∷ Virustotal.finish 0 ∷ []

vt_orderly : AreOrderly true 480 2 vt_ops vt_flights
unfolding Virustotal.step Virustotal.enrich Virustotal.look_up Virustotal.request
    Virustotal.reset_daily Virustotal.pause pick cached get
vt_orderly =
    (omega arith, (record { after = omega arith; slept = omega arith; waited = omega arith }, tt))

spend_paced_example :
    let (n, f') = spend true 480 2 vt_ops vt_flights in
    (f'.state.daily_count ≡ n + 0)
    × (f'.state.daily_count + length f'.out ≤ max (480 + (2 - 1)) (0 + 0))
    × (0 + min_request_interval * n ≤ f'.state.last_request)
spend_paced_example = spend_paced true 480 2 vt_ops vt_flights vt_orderly

abbrev limits : Limits
limits = record { cache_ttl = 604800; cooldown = 3600; daily_quota = 0 }

abbrev lite : Lite
lite = record {
  bogon = false;
  country_code = some "NL";
  asn = "AS64496";
  as_name = none;
  raw = obj end;
}

abbrev info_call : Ipinfo.Call
info_call = record {
  ip = "203.0.113.9";
  started = 100;
  checked = 100;
  answered = 101;
  reply = response (record { status = 200; retry_after = absent; error = ""; body = ok lite });
}

abbrev new_info : Ipinfo.State
new_info = record {
  memory = record { cache = []; cache_ts = [] };
  daily_count = 0;
  daily_reset = 0;
  rate_limited_until = 0;
}

stripped : bare_asn "as64496" ≡ some "64496"
unfolding bare_asn Ipinfo.is_prefixed text_drop
stripped = refl

abbrev decision : String → String → Decision
decision origin scenario = record {
  origin = some origin;
  value = some "203.0.113.9";
  scenario = scenario;
}

abbrev decisions : List Decision
decisions = decision "CAPI" "http:scan" ∷ decision "crowdsec" "ssh-bf" ∷ []

abbrev sec_call : Crowdsec.Call
sec_call = record {
  ip = "203.0.113.9";
  checked = 1000;
  entered = 1000;
  done = 1001;
  download = ok decisions;
  reply = unreachable "down";
}

abbrev new_sec : Crowdsec.State
new_sec = record { decisions = []; last_fetch = 0 }

local_only : scenarios_for "203.0.113.9" (keep is_local decisions) ≡ "ssh-bf" ∷ []
unfolding scenarios_for
local_only = refl

abbrev lines : List Line
lines = remark " Feodo" ∷ listed "203.0.113.9" ∷ listed "198.51.100.7" ∷ []

elem-parse-print_example :
    elem "203.0.113.9" (parse (print lines)) ≡ elem "203.0.113.9" (addresses lines)
elem-parse-print_example = elem-parse-print "203.0.113.9" lines (ground arith)

abbrev feodo_call : ℕ → Abusech.Call
feodo_call t = record {
  ip = "203.0.113.9";
  checked = t;
  entered = t;
  written = t + 1;
  done = t + 2;
  attempts = failed ∷ got 503 "" ∷ got 200 "203.0.113.9" ∷ [];
  write_fault = none;
  reply = raise "down";
}

restart-run_example :
    let s = run false (feodo_call 4000 ∷ feodo_call 9000 ∷ []) (load_cache none) in
    (load_cache s.file).blacklist ≡ s.blacklist
restart-run_example = restart-run false (feodo_call 4000 ∷ feodo_call 9000 ∷ []) none
