-- ===== src/Analytics/Profile.antt =====
-- `BehavioralProfiler` of analytics/behavioral/profiler.py. `signs` is the search of a text by the
-- expression of that name in `TOOLING_SIGNS`. A set is a list without repetitions; scores are in
-- tenths, in which every term of `score` is whole.
pub mod Grows
use getarp.Base.{
  ℕ, ◌+◌, ◌*◌, min, String, ◌==◌, Bool, true, false, ◌&&◌, ◌||◌, not, Option, none, some, List, [],
  ◌∷◌, ◌++◌, length, leb, ltb, elem, text_take, if◌then◌else◌,
}
use getarp.Analytics.Event.{Ev}

pub record Profile : Type 0 where
  pub commands_seen : List String
  pub tooling_hints : List String
  pub tactics : List String
  pub services : List String
  pub sessions : List String
  pub event_count : ℕ
  pub login_attempts : ℕ
  pub first : ℕ
  pub last : ℕ

-- the `setdefault`s, on an empty profile
abbrev pub new_profile : ℕ → Profile
new_profile now = record {
  commands_seen = [];
  tooling_hints = [];
  tactics = [];
  services = [];
  sessions = [];
  event_count = 0;
  login_attempts = 0;
  first = now;
  last = now;
}

abbrev pub tool_names : List String
tool_names =
    "masscan" ∷ "hydra" ∷ "mirai" ∷ "cryptominer" ∷ "wget_dropper" ∷ "recon" ∷ "persistence"
    ∷ "privesc" ∷ "shell_dropper" ∷ "cleanup" ∷ []

-- `TACTIC_MAP`
abbrev tactic_map : String → Option String
tactic_map name =
    if name == "recon"
    then some "TA0007-Discovery"
    else if name == "wget_dropper" || name == "shell_dropper"
    then some "TA0011-C2/Download"
    else if name == "mirai"
    then some "TA0002-Execution"
    else if name == "cryptominer"
    then some "TA0040-Impact"
    else if name == "hydra"
    then some "TA0006-CredentialAccess"
    else if name == "persistence"
    then some "TA0003-Persistence"
    else if name == "privesc"
    then some "TA0004-PrivEscalation"
    else if name == "cleanup"
    then some "TA0005-DefenseEvasion"
    else none

-- `set.add`
unfoldable pub add : String → List String → List String
add s set = if elem s set then set else set ++ s ∷ []

abbrev add_if : Bool → String → List String → List String
add_if b s set = if b then add s set else set

abbrev add_option : Option String → List String → List String
add_option none set = set
add_option (some s) set = add s set

abbrev pub is_login : Ev → Bool
is_login e = e.event_type == "login_attempt" || e.event_type == "login_success"

-- the login block: BRUTEFORCE_TACTIC_THRESHOLD is 5
unfoldable pub on_login : Ev → Profile → Profile
on_login e p =
    if is_login e
    then (let n = p.login_attempts + 1 in
        record p {
          login_attempts = n;
          tactics =
              add_if (e.event_type == "login_success") "TA0001-InitialAccess"
                (add_if (leb 5 n) "TA0006-CredentialAccess" p.tactics);
        })
    else p

-- `commands_seen`: 200 at most, 300 characters of each
unfoldable pub add_command : String → List String → List String
add_command cmd seen =
    if not (elem cmd seen) && not (leb 200 (length seen))
    then seen ++ text_take 300 cmd ∷ []
    else seen

abbrev pub is_command : Ev → Bool
is_command e = e.event_type == "command" && not (e.command == "")

abbrev pub on_command : Ev → Profile → Profile
on_command e p = record p {
  commands_seen = if is_command e then add_command e.command p.commands_seen else p.commands_seen;
}

-- a text that the expression of this name matches
abbrev pub found : String → Profile → Profile
found name p = record p {
  tooling_hints = add name p.tooling_hints;
  tactics = add_option (tactic_map name) p.tactics;
}

-- the loop over the expressions, for one text
unfoldable pub spot : (String → String → Bool) → String → List String → Profile → Profile
spot signs text [] p = p
spot signs text (name ∷ names) p =
    spot signs text names (if signs name text then found name p else p)

abbrev pub spot_if : (String → String → Bool) → Bool → String → Profile → Profile
spot_if signs b text p = if b then spot signs text tool_names p else p

-- the counts, services and sessions
abbrev pub on_any : ℕ → Ev → Profile → Profile
on_any now e p = record p {
  event_count = p.event_count + 1;
  last = now;
  services = add_if (not (e.service == "")) e.service p.services;
  sessions = add_if (not (e.session == "")) e.session p.sessions;
}

-- `update`, of a profile that has its keys
unfoldable pub update : (String → String → Bool) → ℕ → Ev → Profile → Profile
update signs now e p =
    let p' = on_command e (on_login e (on_any now e p)) in
    spot_if signs (not (e.signature == "")) e.signature (spot_if signs (is_command e) e.command p')

-- `score`, in tenths
unfoldable pub score : Profile → ℕ
score p =
    let s =
      min (length p.services * 60) 300
      + min (length p.commands_seen * 50) 250
      + min (length p.tooling_hints * 120) 360
      + min (p.login_attempts * 15) 200
      + (if elem "mirai" p.tooling_hints then 100 else 0) in
    min s 1000

-- `classify`
unfoldable pub classify : Profile → String
classify p =
    if elem "mirai" p.tooling_hints || elem "cryptominer" p.tooling_hints
    then "exploiter"
    else if leb 1 (length p.commands_seen)
    then "intruder"
    else if elem "hydra" p.tooling_hints || leb 5 p.login_attempts
    then "bruteforcer"
    else if leb 3 (length p.services)
    then "scanner"
    else "prober"
