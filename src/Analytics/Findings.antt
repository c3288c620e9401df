-- ===== src/Analytics/Findings.antt =====
-- What the engine of analytics/engine.py holds, and how it writes findings: `persist_finding`, and the loop
-- over the findings of a detector.
use getarp.Base.Exec.{Result, ok, raise}
use getarp.Base.{ℕ, String, ◌==◌, Option, none, some, List, [], ◌∷◌, length, if◌then◌else◌}
use getarp.Base.Dict.{Dict}
use getarp.Retry.{Ex}
use getarp.Analytics.Event.{
  Detail, Finding, scan, attack, scan_detail, login_detail, command_detail, signature_detail,
}
use getarp.Analytics.Windows.{Window}
use getarp.Analytics.Rank.{persist_finding}
use getarp.Analytics.Flush.{State}

-- an enabled detector with its `_reported`
pub data Detector : Type 0 where
  scan_detector : Dict ℕ → Detector
  attack_detector : Dict ℕ → Detector

-- a row of `scan_events`
pub record ScanRow : Type 0 where
  pub src_ip : String
  pub scan_type : String
  pub ports : List ℕ
  pub port_count : ℕ
  pub window_s : Option ℕ
  pub detail : Detail

-- a row of `attack_events`
pub record AttackRow : Type 0 where
  pub src_ip : String
  pub attack_type : String
  pub service : String
  pub evidence : Detail
  pub severity : ℕ

-- what is published
pub record Ping : Type 0 where
  pub kind : String
  pub src_ip : String
  pub label : Option String

-- `memory` holds the profiles, and the tables `behavior_profiles` and `ips`; `acked` are the entries
-- that were acknowledged.
pub record Engine : Type 0 where
  pub windows : Dict Window
  pub detectors : List Detector
  pub memory : State
  pub scan_events : List ScanRow
  pub attack_events : List AttackRow
  pub pings : List Ping
  pub acked : List String

-- How a call of `persist_finding` ends: done; raised before the INSERT has an effect; before the UPDATE
-- has; or before the publication.
pub data Fate : Type 0 where
  done : Fate
  unwritten : Ex → Fate
  unranked : Ex → Fate
  unpublished : Ex → Fate

-- `f.detail.get("window_s")`
abbrev pub window_of : Detail → Option ℕ
window_of (scan_detail n window services) = some window
window_of (login_detail n users sample) = none
window_of (command_detail command) = none
window_of (signature_detail signature) = none

abbrev pub scan_row : String → String → List ℕ → Detail → ScanRow
scan_row ip type ports detail = record {
  src_ip = ip;
  scan_type = type;
  ports = ports;
  port_count = length ports;
  window_s = window_of detail;
  detail = detail;
}

abbrev pub attack_row : String → String → String → ℕ → Detail → AttackRow
attack_row ip type service severity detail = record {
  src_ip = ip;
  attack_type = type;
  service = service;
  evidence = detail;
  severity = severity;
}

-- the INSERT
unfoldable pub insert_finding : Finding → Engine → Engine
insert_finding (scan ip type ports detail) s = record s {
  scan_events = scan_row ip type ports detail ∷ s.scan_events;
}
insert_finding (attack ip type service severity detail) s = record s {
  attack_events = attack_row ip type service severity detail ∷ s.attack_events;
}

-- the UPDATE
unfoldable pub rank_finding : Finding → Engine → Engine
rank_finding f s = record s { memory = record s.memory { ips = persist_finding f s.memory.ips } }

abbrev pub or_none : String → Option String
or_none text = if text == "" then none else some text

abbrev pub ping_of : Finding → Ping
ping_of (scan ip type ports detail) = record { kind = "scan"; src_ip = ip; label = some type }
ping_of (attack ip type service severity detail) = record {
  kind = "attack";
  src_ip = ip;
  label = or_none type;
}

-- `self.r.publish`
unfoldable pub publish_finding : Finding → Engine → Engine
publish_finding f s = record s { pings = ping_of f ∷ s.pings }

-- `persist_finding`
unfoldable pub persist : Fate → Finding → Engine → Result Ex (Unit {0}) × Engine
persist done f s = (ok tt, publish_finding f (rank_finding f (insert_finding f s)))
persist (unwritten ex) f s = (raise ex, s)
persist (unranked ex) f s = (raise ex, insert_finding f s)
persist (unpublished ex) f s = (raise ex, rank_finding f (insert_finding f s))

-- The findings of a detector, one after the other; an exception ends them, and is only printed. With
-- no fate left, a call succeeds.
unfoldable pub persist_all : List Finding → List Fate → Engine → List Fate × Engine
persist_all [] fates s = (fates, s)
persist_all (f ∷ fs) [] s = persist_all fs [] (persist done f s).1
persist_all (f ∷ fs) (x ∷ fates) s =
    let run = persist x f s in
    elim run.0 [ ok u ↦ persist_all fs fates run.1 | raise ex ↦ (fates, run.1) ]
