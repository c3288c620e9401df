-- ===== src/Analytics/Dedupe.antt =====
-- The memory of what was reported: `_dup` and `prune` of analytics/correlation/attack_detector.py; the
-- scan detector has the same lines in place.
pub mod Quiet
use getarp.Base.{
  ℕ, ◌-◌, ◌*◌, ◌<◌, String, Bool, true, false, List, [], ◌∷◌, ltb, leb, or_else, keep,
  if◌then◌else◌,
}
use getarp.Base.Dict.{Dict, get, put}

-- `_dup`: was the key reported within the window; if not, it is now
unfoldable pub dup : ℕ → String → ℕ → Dict ℕ → Bool × Dict ℕ
dup window key now d =
    if ltb (now - or_else (get d key) 0) window then (true, d) else (false, put d key now)

-- `prune`
unfoldable pub prune : ℕ → ℕ → Dict ℕ → Dict ℕ
prune window now d = keep (λ e. leb (now - window * 2) e.1) d
