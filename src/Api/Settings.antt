-- ===== src/Api/Settings.antt =====
-- `_validate_value` and `put_setting` of api/routers/admin.py, on the table `settings`.
pub mod Valid
use getarp.Base.Dict.{Dict, put}
use getarp.Base.Int.{ℤ, pos, negsuc}
use getarp.Base.Exec.{Result, ok, raise}
use getarp.Base.{
  ℕ, zero, suc, String, ◌==◌, Bool, true, false, ◌||◌, ◌&&◌, not, List, [], ◌∷◌, ◌++◌, any, elem,
  map, split_char, keep, strip, if◌then◌else◌,
}
use getarp.Json.{Value, null, bool, int, float, str, arr, obj}

abbrev pub int_settings : List String
int_settings =
    "scan_port_threshold" ∷ "scan_window_seconds" ∷ "bruteforce_threshold"
    ∷ "bruteforce_window_seconds" ∷ "status_interval_seconds" ∷ "report_cron_hour" ∷ []

abbrev pub str_settings : List String
str_settings = "enrichment_provider" ∷ "enabled_detectors" ∷ []

abbrev pub valid_providers : List String
valid_providers =
    "tiered" ∷ "crowdsec" ∷ "abuseipdb" ∷ "greynoise" ∷ "virustotal" ∷ "abusech" ∷ "ipinfo"
    ∷ "multi" ∷ []

abbrev pub valid_detectors : List String
valid_detectors = "scan" ∷ "attack" ∷ []

-- an `int` that is no `bool` and not below 1
abbrev pub is_positive : Value → Bool
is_positive (int (pos (suc n))) = true
is_positive v = false

-- `value in VALID_PROVIDERS`; a list or a dict cannot be looked up in a set, and raises
abbrev pub is_provider : Value → Bool
is_provider (str s) = elem s valid_providers
is_provider v = false

-- the detectors that the text names, `{t.strip() for t in value.split(",") if t.strip()}`
abbrev pub named : String → List String
named s = keep (λ t. not (t == "")) (map strip (split_char 44 s))

abbrev pub are_detectors : Value → Bool
are_detectors (str s) =
    not (strip s == "") && not (any (λ t. not (elem t valid_detectors)) (named s))
are_detectors v = false

-- `_validate_value` lets the value through
unfoldable pub is_valid : String → Value → Bool
is_valid key v =
    (not (elem key int_settings) || is_positive v)
    && (not (key == "enrichment_provider") || is_provider v)
    && (not (key == "enabled_detectors") || are_detectors v)

-- an answer that is no 200: a 400, or a 500 where a list or a dict is looked up in a set
pub data Refused : Type 0 where
  refused : Refused

-- `put_setting`: the answer, and the table after it
unfoldable pub put_setting : String → Value → Dict Value → Result Refused (Unit {0}) × Dict Value
put_setting key v table =
    if elem key (int_settings ++ str_settings) && is_valid key v
    then (ok tt, put table key v)
    else (raise refused, table)
