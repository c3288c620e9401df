-- ===== src/Api/Login.antt =====
-- The brute-force lockout of `login` in api/main.py. Redis holds a count of failures for each address,
-- with the time at which it expires. Between the look at the count and the new count the password is
-- checked, and other requests run.
pub mod Lockout
use getarp.Base.{
  ◌++◌, ℕ, ◌+◌, String, ◌==◌, Bool, true, false, Option, none, some, List, [], ◌∷◌, ltb, leb,
  if◌then◌else◌,
}
use getarp.Flight.{pick}
use getarp.Base.Dict.{Dict, get, put, remove}

abbrev pub max_attempts : ℕ
max_attempts = 5

abbrev window_seconds : ℕ
window_seconds = 900

pub record Fails : Type 0 where
  pub count : ℕ
  pub expires : ℕ

-- a login request, whether its credentials are good, the time when it looks at the count, and the time
-- when the credentials have been checked
pub record Request : Type 0 where
  pub ip : String
  pub good : Bool
  pub now : ℕ
  pub checked : ℕ

-- 429, 401 and 200
pub data Answer : Type 0 where
  too_many bad_credentials welcome : Answer

-- the counts, and the requests whose credentials are being checked
pub record Logins : Type 0 where
  pub fails : Dict Fails
  pub checking : List Request

-- what Redis still has under the key
abbrev live : ℕ → Option Fails → Option Fails
live now none = none
live now (some f) = if ltb now f.expires then some f else none

abbrev pub fails_of : ℕ → String → Dict Fails → Option Fails
fails_of now ip d = live now (get d ip)

abbrev pub count_of : Option Fails → ℕ
count_of none = 0
count_of (some f) = f.count

-- INCR, and EXPIRE with NX
abbrev pub one_more : ℕ → Option Fails → Fails
one_more now none = record { count = 1; expires = now + window_seconds }
one_more now (some f) = record f { count = f.count + 1 }

abbrev pub is_locked : Request → Dict Fails → Bool
is_locked r d = leb max_attempts (count_of (fails_of r.now r.ip d))

-- `login` up to `auth.authenticate`: it is refused, or its credentials are checked
unfoldable pub look_up : Request → Logins → Option Answer × Logins
look_up r s =
    if is_locked r s.fails
    then (some too_many, s)
    else (none, record s { checking = s.checking ++ r ∷ [] })

-- `login` after it: the answer, and the counts after
unfoldable pub respond : Request → Dict Fails → Answer × Dict Fails
respond r d =
    if r.good
    then (welcome, remove d r.ip)
    else (bad_credentials, put d r.ip (one_more r.checked (fails_of r.checked r.ip d)))

-- a request comes, or the credentials of the n-th of those that wait have been checked
pub data Op : Type 0 where
  begin : Request → Op
  finish : ℕ → Op

abbrev pub finished : Logins → Option (Request × List Request) → Option Answer × Logins
finished s none = (none, s)
finished s (some (r, rest)) =
    let (answer, d) = respond r s.fails in (some answer, record { fails = d; checking = rest })

-- one step of `login`, with the answer that is given in it
unfoldable pub step : Op → Logins → Option Answer × Logins
step (begin r) s = look_up r s
step (finish n) s = finished s (pick n s.checking)
