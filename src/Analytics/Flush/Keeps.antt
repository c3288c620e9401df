-- ===== src/Analytics/Flush/Keeps.antt =====
-- The steps of Analytics.Flush, one by one, on what a profile has in memory, its marks and its row.
use getarp.Analytics.Flush.Kept.{IsKept, AllKept, make_room-AllKept, update_profile-AllKept}
use getarp.Base.{ℕ, String, ◌==◌, Bool, false, some, ◌≡◌}
use getarp.Base.Dict.{get}
use getarp.Analytics.Event.{Ev}
use getarp.Analytics.Profile.{Profile}
use getarp.Analytics.Flush.{State, make_room, touch}

-- the profile at the head of what is pending is being written; all others are kept without it
abbrev KeptBut : String → State → Type 0
KeptBut j s =
    (ip : String) (p : Profile) → get s.profiles ip ≡ some p → (ip == j) ≡ false → IsKept s ip p

pub touch-AllKept :
    (signs : String → String → Bool) (cap : ℕ) (ip : String) (e : Ev) (now : ℕ) (s : State)
    → AllKept s
    → AllKept (touch signs cap ip e now s)
unfolding touch
touch-AllKept signs cap ip e now s h =
    update_profile-AllKept signs ip e now (make_room cap ip s) (make_room-AllKept cap ip s h)
