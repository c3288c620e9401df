-- ===== src/Analytics/Windows.antt =====
-- The correlation windows of analytics/engine.py: what `handle_event` and `gc_state` do to
-- `self.windows`. A deque is a list, its oldest event first.
pub mod Bounded
use getarp.Base.{
  ℕ, ◌+◌, ◌-◌, String, Bool, true, false, ◌&&◌, not, Option, none, some, List, [], ◌∷◌, ◌++◌, drop,
  length, leb, ltb, keep, or_else, if◌then◌else◌,
}
use getarp.Base.Dict.{Dict, get, put, has}
use getarp.Analytics.Event.{Ev}
use getarp.Analytics.Evict.{evict}

abbrev pub Window : Type 0
Window = List Ev

abbrev last_recv : ℕ → Window → ℕ
last_recv t [] = t
last_recv t (e ∷ es) = last_recv e.recv es

-- `w[-1]["_recv"] if w else 0`
abbrev pub age : Window → ℕ
age w = last_recv 0 w

-- `append` to a `deque(maxlen=...)`
unfoldable pub append_event : ℕ → Ev → Window → Window
append_event max_events e w = let w' = w ++ e ∷ [] in drop (length w' - max_events) w'

-- `while win and win[0]["_recv"] < cutoff: win.popleft()`
unfoldable pub trim : ℕ → Window → Window
trim cutoff [] = []
trim cutoff (e ∷ es) = let rest = trim cutoff es in if ltb e.recv cutoff then rest else e ∷ es

abbrev pub make_room : ℕ → String → Dict Window → Dict Window
make_room max_ips ip ws =
    if not (has ws ip) && leb max_ips (length ws) then evict age max_ips ws else ws

-- `handle_event` up to the detectors; `now` is the second reading of the clock
unfoldable pub observe : ℕ → ℕ → ℕ → ℕ → String → Ev → Dict Window → Dict Window
observe max_ips max_events keep_s now ip e ws =
    let ws' = make_room max_ips ip ws in
    let win = append_event max_events e (or_else (get ws' ip) []) in
    put ws' ip (trim (now - keep_s) win)

abbrev is_live : ℕ → Window → Bool
is_live cutoff [] = false
is_live cutoff (e ∷ es) = leb cutoff (last_recv e.recv es)

-- `gc_state`, of the windows
unfoldable pub gc_windows : ℕ → ℕ → Dict Window → Dict Window
gc_windows keep_s now ws = keep (λ x. is_live (now - keep_s) x.1) ws

-- what happens to the windows: an event, with the clock after it, or a collection
pub data Tick : Type 0 where
  event : String → Ev → ℕ → Tick
  collect : ℕ → Tick

unfoldable pub run : ℕ → ℕ → ℕ → List Tick → Dict Window → Dict Window
run max_ips max_events keep_s [] ws = ws
run max_ips max_events keep_s (event ip e now ∷ ts) ws =
    run max_ips max_events keep_s ts (observe max_ips max_events keep_s now ip e ws)
run max_ips max_events keep_s (collect now ∷ ts) ws =
    run max_ips max_events keep_s ts (gc_windows keep_s now ws)
