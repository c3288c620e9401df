-- ===== src/Analytics/Rank.antt =====
-- The order of the classes, and what analytics/engine.py writes to `ips`: `_ESCALATE_CLASS_SQL` and
-- GREATEST in `persist_finding` and `persist_profile`. Scores are in tenths.
pub mod Escalates
use getarp.Base.{
  ℕ, max, String, ◌==◌, Bool, true, false, Option, none, some, List, [], ◌∷◌, leb, if◌then◌else◌,
}
use getarp.Base.Dict.{Dict, get, put}
use getarp.Analytics.Event.{Finding, scan, attack}

-- `COALESCE(array_position(CLASS_RANK, c), 0)`
unfoldable pub rank : String → ℕ
rank c =
    if c == "unknown"
    then 1
    else if c == "prober"
    then 2
    else if c == "scanner"
    then 3
    else if c == "bruteforcer"
    then 4
    else if c == "intruder"
    then 5
    else if c == "exploiter"
    then 6
    else 0

-- the two columns of a row of `ips`
pub record Standing : Type 0 where
  pub classification : String
  pub threat_score : ℕ

-- the CASE
unfoldable pub escalate : String → String → String
escalate new old = if leb (rank old) (rank new) then new else old

-- `classification=..., threat_score=GREATEST(...)`
abbrev pub raise_both : String → ℕ → Standing → Standing
raise_both c n s = record {
  classification = escalate c s.classification;
  threat_score = max s.threat_score n;
}

abbrev pub raise_score : ℕ → Standing → Standing
raise_score n s = record s { threat_score = max s.threat_score n }

-- `UPDATE ips SET ... WHERE src_ip=$1`
unfoldable pub update_ip : (Standing → Standing) → String → Dict Standing → Dict Standing
update_ip f ip ips = elim (get ips ip) [ none ↦ ips | some s ↦ put ips ip (f s) ]

-- `bump`
abbrev pub bump : String → ℕ
bump attack_type =
    if attack_type == "exploit"
    then 750
    else if attack_type == "post_auth_exec"
    then 850
    else if attack_type == "cred_stuffing"
    then 550
    else if attack_type == "bruteforce"
    then 450
    else 400

-- what `persist_finding` does to `ips`
unfoldable pub persist_finding : Finding → Dict Standing → Dict Standing
persist_finding (scan ip type ports detail) ips = update_ip (raise_both "scanner" 300) ip ips
persist_finding (attack ip type service severity detail) ips =
    update_ip (raise_score (bump type)) ip ips

-- what `persist_profile` does to `ips`, with the class and the score of the snapshot
unfoldable pub persist_profile : String → String → ℕ → Dict Standing → Dict Standing
persist_profile ip class score ips = update_ip (raise_both class score) ip ips
