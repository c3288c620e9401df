-- ===== src/Enrich/Crowdsec.antt =====
-- `CrowdSecProvider` of enrichment/providers.py: the decisions of the local engine, then its CTI.
pub mod Bans
use getarp.Base.Exec.{Result, ok, raise}
use getarp.Base.{
  ℕ, ◌+◌, ◌-◌, ◌*◌, min, String, ◌==◌, Bool, true, false, ◌||◌, ◌&&◌, not, Option, none, some, List,
  [], ◌∷◌, ◌++◌, ltb, leb, eqb, or_else, keep, if◌then◌else◌,
}
use getarp.Base.Dict.{Dict, get, put}
use getarp.Json.{Value, Items, bool, str, arr, obj, nil, cons, end, field}
use getarp.Enrich.Record.{Enrichment, unknown}
use getarp.Enrich.Merge.{add_categories}
use getarp.Enrich.Http.{Reply, unreachable, response, Response, checked_body}

-- a decision of the engine, the fields that are read
pub record Decision : Type 0 where
  pub origin : Option String
  pub value : Option String
  pub scenario : String

-- the fields of an instance that change
pub record State : Type 0 where
  pub decisions : Dict (List String)
  pub last_fetch : ℕ

-- what is read of the answer of the CTI; the names that are empty stand in the lists as `""`
pub record Smoke : Type 0 where
  pub total : ℕ
  pub country : Option String
  pub as_num : String
  pub as_name : Option String
  pub classifications : List String
  pub behaviors : List String
  pub raw : Value

-- The clock when the call looks at the age of the decisions, when it looks again with the lock, and when
-- the download is over; the download's decisions, or the text of what it raised; the answer of the CTI.
pub record Call : Type 0 where
  pub ip : String
  pub checked : ℕ
  pub entered : ℕ
  pub done : ℕ
  pub download : Result String (List Decision)
  pub reply : Reply Smoke

abbrev pub ttl : ℕ
ttl = 300

-- `d.get("origin") != "CAPI"`
abbrev pub is_local : Decision → Bool
is_local d = not (or_else d.origin "" == "CAPI")

-- `new.setdefault(ip, []).append(scenario)`
unfoldable pub add_scenario : Dict (List String) → String → String → Dict (List String)
add_scenario d ip scenario = put d ip (or_else (get d ip) [] ++ scenario ∷ [])

-- one round of the loop over the local decisions
unfoldable pub add_decision : Dict (List String) → Decision → Dict (List String)
add_decision new d =
    if or_else d.value "" == "" then new else add_scenario new (or_else d.value "") d.scenario

unfoldable pub add_decisions : Dict (List String) → List Decision → Dict (List String)
add_decisions new [] = new
add_decisions new (d ∷ ds) = add_decisions (add_decision new d) ds

-- the scenarios by address
unfoldable pub local_decisions : List Decision → Dict (List String)
local_decisions ds = add_decisions [] (keep is_local ds)

abbrev downloaded : Result String (List Decision) → Dict (List String) → Dict (List String)
downloaded (raise ex) old = old
downloaded (ok ds) old = local_decisions ds

-- `_refresh`: a download that fails leaves the decisions, and counts as a fetch
unfoldable pub refresh : Call → State → State
refresh c s =
    if ltb (c.entered - s.last_fetch) ttl
    then s
    else record { decisions = downloaded c.download s.decisions; last_fetch = c.done }

abbrev verdict : ℕ → String
verdict total = if leb 3 total then "malicious" else if leb 1 total then "suspicious" else "clean"

abbrev named : List String → List String
named names = keep (λ n. not (n == "")) names

-- the fields read off the answer of the CTI
unfoldable pub smoked : String → Smoke → Enrichment
smoked ip d = record (unknown ip "crowdsec") {
  raw = d.raw;
  confidence = min (d.total * 20) 100;
  is_known_attacker = leb 3 d.total;
  reputation = verdict d.total;
  country = d.country;
  asn = some d.as_num;
  org = d.as_name;
  categories = named d.classifications ++ named d.behaviors;
}

abbrev pub found : String → Result String Smoke → Option Enrichment
found ip (raise ex) = none
found ip (ok d) = some (smoked ip d)

-- `_cti_lookup`; `cti_key` says whether a key is set
unfoldable pub cti_lookup : Bool → String → Reply Smoke → Option Enrichment
cti_lookup false ip r = none
cti_lookup true ip (unreachable ex) = none
cti_lookup true ip (response r) =
    if eqb r.status 404 || eqb r.status 429 then none else found ip (checked_body r)

abbrev texts : List String → Items
texts [] = nil
texts (s ∷ ss) = cons (str s) (texts ss)

abbrev pub lapi : Bool → List String → Value
lapi banned scenarios = obj (
    field "source" (str "lapi")
      (field "banned" (bool banned) (field "scenarios" (arr (texts scenarios)) end)))

-- the answer for an address that is banned here; the set of the scenarios in the order met
unfoldable pub banned : String → List String → Enrichment
banned ip scenarios = record (unknown ip "crowdsec") {
  reputation = "malicious";
  is_known_attacker = true;
  confidence = 90;
  categories = add_categories [] scenarios;
  raw = lapi true scenarios;
}

-- the answer of the CTI, or that nothing is known
unfoldable pub fallback : Bool → Call → Enrichment
fallback cti_key c =
    or_else (cti_lookup cti_key c.ip c.reply)
      (record (unknown c.ip "crowdsec") { raw = lapi false [] })

abbrev keyless : String → Enrichment
keyless ip = record (unknown ip "crowdsec") {
  categories = "no-keys-configured" ∷ [];
  raw = obj (
      field "source" (str "none")
        (field "reason" (str "set CROWDSEC_BOUNCER_KEY or CROWDSEC_CTI_KEY") end));
}

-- the scenarios of an address, where there are any
unfoldable pub looked_up : Bool → Call → List String → Enrichment
looked_up cti_key c [] = fallback cti_key c
looked_up cti_key c (x ∷ xs) = banned c.ip (x ∷ xs)

abbrev pub refreshed : Call → State → State
refreshed c s = if leb ttl (c.checked - s.last_fetch) then refresh c s else s

-- `enrich`; `key` and `cti_key` say which keys are set
unfoldable pub enrich : Bool → Bool → Call → State → Enrichment × State
enrich false false c s = (keyless c.ip, s)
enrich false true c s = (fallback true c, s)
enrich true cti_key c s =
    let s' = refreshed c s in (looked_up cti_key c (or_else (get s'.decisions c.ip) []), s')
