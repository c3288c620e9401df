-- ===== src/Heartbeat.antt =====
-- heartbeat.py (the same file in pipeline/, enrichment/ and analytics/) and pipeline/healthcheck.py: which
-- loops of a worker still run. Times are in milliseconds.
pub mod Known
pub mod Watch
use getarp.Base.{
  ℕ, ◌+◌, ◌-◌, max, String, ◌==◌, Bool, true, false, Option, none, some, List, [], ◌∷◌, ltb, leb,
  or_else, is_some, if◌then◌else◌,
}
use getarp.Base.Dict.{Dict, get, put, remove}

-- `files` are the modification times under HEARTBEAT_DIR, `last` is `_last`, `warned` is `_warned`
pub record State : Type 0 where
  pub files : Dict ℕ
  pub last : Dict ℕ
  pub warned : Bool

-- MIN_BEAT_INTERVAL_S
abbrev pub min_beat_interval : ℕ
min_beat_interval = 1000

-- `env_seconds`: `raw` is the variable, if it is set, and `float` reads a number
unfoldable pub env_seconds : (String → Option ℕ) → Option String → ℕ → ℕ
env_seconds float none default = default
env_seconds float (some raw) default =
    if raw == "" then default else elim (float raw) [ none ↦ default | some n ↦ max 1000 n ]

-- `beat`; the flag says whether the file can be written
unfoldable pub beat : Bool → String → ℕ → State → State
beat can_write name now s =
    if ltb (now - or_else (get s.last name) 0) min_beat_interval
    then s
    else if can_write
    then record s { last = put s.last name now; files = put s.files name now }
    else record s { last = put s.last name now; warned = true }

-- the loops with their thresholds
abbrev pub Specs : Type 0
Specs = Dict ℕ

-- `start`
unfoldable pub start : Bool → ℕ → Specs → State → State
start can_write now [] s = s
start can_write now ((name, max_age) ∷ specs) s =
    start can_write now specs (beat can_write name now (record s { last = remove s.last name }))

-- `age`
unfoldable pub age : String → ℕ → State → Option ℕ
age name now s = elim (get s.files name) [ none ↦ none | some m ↦ some (now - m) ]

-- `seen is None or seen > max_age`
abbrev pub is_overdue : Option ℕ → ℕ → Bool
is_overdue none max_age = true
is_overdue (some seen) max_age = ltb max_age seen

-- `stale`
unfoldable pub stale : Specs → ℕ → State → Option (String × Option ℕ × ℕ)
stale [] now s = none
stale ((name, max_age) ∷ specs) now s =
    let rest = stale specs now s in
    if is_overdue (age name now s) max_age then some (name, age name now s, max_age) else rest

abbrev code_of : Option (String × Option ℕ × ℕ) → ℕ
code_of none = 0
code_of (some bad) = 1

-- `check`, without what it prints
unfoldable pub check : Specs → ℕ → State → ℕ
check specs now s = code_of (stale specs now s)

-- `watchdog`, after one of its sleeps: does it end the process?
unfoldable pub exits : Specs → ℕ → State → Bool
exits specs now s = is_some (stale specs now s)

-- a source that was there and is quiet for too long
abbrev pub is_quiet : Option ℕ → ℕ → Bool
is_quiet none max_age = false
is_quiet (some seen) max_age = ltb max_age seen

-- the loop of healthcheck.py over SOURCE_FRESHNESS
unfoldable pub sources : Specs → ℕ → State → ℕ → ℕ
sources [] now s rc = rc
sources ((name, max_age) ∷ specs) now s rc =
    sources specs now s (if is_quiet (age name now s) max_age then 1 else rc)

-- healthcheck.py of the pipeline
unfoldable pub healthcheck : Specs → Specs → ℕ → State → ℕ
healthcheck loops freshness now s = sources freshness now s (check loops now s)
