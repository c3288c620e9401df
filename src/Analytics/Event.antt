-- ===== src/Analytics/Event.antt =====
-- The events that the engine reads off the bus, and the findings of the detectors
-- (analytics/correlation/base.py). The pipeline writes every key, `""` where it has no value.
use getarp.Base.{ℕ, String, List}

pub record Ev : Type 0 where
  pub event_type : String
  pub service : String
  pub session : String
  pub username : String
  pub command : String
  pub signature : String
  pub severity : String
  pub dst_port : String
  -- `_recv`: when the engine received it
  pub recv : ℕ

pub data Detail : Type 0 where
  scan_detail : ℕ → ℕ → List String → Detail
  login_detail : ℕ → ℕ → List String → Detail
  command_detail : String → Detail
  signature_detail : String → Detail

-- `Finding`: a scan with its type and ports, or an attack with its type, service and severity
pub data Finding : Type 0 where
  scan : String → String → List ℕ → Detail → Finding
  attack : String → String → String → ℕ → Detail → Finding
