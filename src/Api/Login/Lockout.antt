-- ===== src/Api/Login/Lockout.antt =====
-- How many passwords an address may guess.
use getarp.Base.{
  ◌-◌, ℕ, ◌+◌, ◌≤◌, ◌<◌, max, String, ◌==◌, true, false, some, List, [], ◌∷◌, All, if◌then◌else◌,
  ◌≡◌,
}
use getarp.Base.Dict.{Dict, get}
use getarp.Flight.{total}
use getarp.Api.Login.{max_attempts, Fails, Request, Logins, Op, begin, finish, is_locked, step}

abbrev is_by : String → Request → ℕ
is_by ip r = if r.ip == ip then 1 else 0

-- how many passwords for `ip` are being checked
abbrev pub in_check : String → Logins → ℕ
in_check ip s = total (is_by ip) s.checking

-- whether the step sets off the check of a password for `ip`
abbrev guess : String → Op → Logins → ℕ
guess ip (begin r) s = if is_locked r s.fails then 0 else is_by ip r
guess ip (finish n) s = 0

-- how many passwords for `ip` are checked in these steps
unfoldable pub guesses : String → List Op → Logins → ℕ
guesses ip [] s = 0
guesses ip (op ∷ ops) s = guess ip op s + guesses ip ops (step op s).1

-- a request of `ip` has a wrong password, and is through before `until`
pub record IsGuess (ip : String) (until : ℕ) (r : Request) : Type 0 where
  pub wrong : (r.ip == ip) ≡ true → r.good ≡ false
  pub early : (r.ip == ip) ≡ true → r.now < until
  pub through : (r.ip == ip) ≡ true → r.checked < until

abbrev BeginsGuess : String → ℕ → Op → Type 0
BeginsGuess ip until (begin r) = IsGuess ip until r
BeginsGuess ip until (finish n) = Unit

-- the requests that come and those that wait are such
abbrev pub Guessing : String → ℕ → List Op → Logins → Type 0
Guessing ip until ops s = All (BeginsGuess ip until) ops × All (IsGuess ip until) s.checking

-- at no time more than `k` passwords for `ip` are being checked
abbrev pub AtMost : String → ℕ → List Op → Logins → Type 0
AtMost ip k [] s = Unit
AtMost ip k (op ∷ ops) s = (in_check ip (step op s).1 ≤ k) × AtMost ip k ops (step op s).1

-- what a step leaves of the count of `ip`
record Counted (ip : String) (k g : ℕ) (f : Fails) (s s' : Logins) : Type 0 where
  count : ℕ
  stored : get s'.fails ip ≡ some (record f { count = count })
  moved : count + in_check ip s' ≡ g + (f.count + in_check ip s)
  bound : count + in_check ip s' ≤ max (max_attempts - 1 + k) (f.count + in_check ip s)
  guessing : All (IsGuess ip f.expires) s'.checking
