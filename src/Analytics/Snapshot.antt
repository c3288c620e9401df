-- ===== src/Analytics/Snapshot.antt =====
-- `BehavioralProfiler.snapshot` of analytics/behavioral/profiler.py, and the row of `behavior_profiles`
-- that `persist_profile` of analytics/engine.py merges it into. A DISTINCT stands in the order met.
use getarp.Base.{
  ℕ, ◌-◌, max, String, Option, none, some, List, [], ◌∷◌, ◌++◌, length, take, elem, insert_text,
  if◌then◌else◌,
}
use getarp.Base.Dict.{Dict, get, put}
use getarp.Analytics.Profile.{Profile, score, classify}
use getarp.Analytics.Rank.{Standing, escalate, persist_profile}

-- `avg_session_s` is the duration with the number that it is divided by.
pub record Snap : Type 0 where
  pub src_ip : String
  pub sessions : ℕ
  pub avg_session_s : ℕ × ℕ
  pub login_attempts : ℕ
  pub commands_seen : List String
  pub tooling_hints : List String
  pub tactics : List String
  pub threat_score : ℕ
  pub classification : String

unfoldable pub sorted : List String → List String
sorted [] = []
sorted (s ∷ ss) = insert_text s (sorted ss)

-- `snapshot`
unfoldable pub snapshot : String → Profile → Snap
snapshot ip p = record {
  src_ip = ip;
  sessions = length p.sessions;
  avg_session_s = (p.last - p.first, max (length p.sessions) 1);
  login_attempts = p.login_attempts;
  commands_seen = take 50 p.commands_seen;
  tooling_hints = sorted p.tooling_hints;
  tactics = sorted p.tactics;
  threat_score = score p;
  classification = classify p;
}

-- A row of `behavior_profiles`. Of `detail`, the keys that are read are its own.
pub record Row : Type 0 where
  pub sessions : ℕ
  pub avg_session_s : ℕ × ℕ
  pub commands_seen : List String
  pub tooling_hints : List String
  pub tactics : List String
  pub threat_score : ℕ
  pub detail : Snap

-- `SELECT DISTINCT ... unnest(a || b)`
unfoldable pub distinct_in : List String → List String → List String
distinct_in seen [] = seen
distinct_in seen (s ∷ ss) = distinct_in (if elem s seen then seen else seen ++ s ∷ []) ss

abbrev pub merge_texts : List String → List String → List String
merge_texts old new = distinct_in [] (old ++ new)

-- the INSERT of a new row
abbrev pub new_row : Snap → Row
new_row s = record {
  sessions = s.sessions;
  avg_session_s = s.avg_session_s;
  commands_seen = s.commands_seen;
  tooling_hints = s.tooling_hints;
  tactics = s.tactics;
  threat_score = s.threat_score;
  detail = s;
}

-- ON CONFLICT (src_ip) DO UPDATE
unfoldable pub merge_row : Snap → Row → Row
merge_row s r = record {
  sessions = max r.sessions s.sessions;
  avg_session_s = s.avg_session_s;
  commands_seen = take 200 (merge_texts r.commands_seen s.commands_seen);
  tooling_hints = merge_texts r.tooling_hints s.tooling_hints;
  tactics = merge_texts r.tactics s.tactics;
  threat_score = max r.threat_score s.threat_score;
  detail = record s {
    login_attempts = max r.detail.login_attempts s.login_attempts;
    classification = escalate s.classification r.detail.classification;
  };
}

unfoldable pub merged : Snap → Option Row → Row
merged s none = new_row s
merged s (some r) = merge_row s r

-- the first statement of `persist_profile`
unfoldable pub upsert_profile : Snap → Dict Row → Dict Row
upsert_profile s rows = put rows s.src_ip (merged s (get rows s.src_ip))

-- the second one
unfoldable pub update_standing : Snap → Dict Standing → Dict Standing
update_standing s ips = persist_profile s.src_ip s.classification s.threat_score ips
