-- ===== src/Analytics/Attack.antt =====
-- analytics/correlation/attack_detector.py: brute force, commands after a login, exploit signatures.
pub mod Logins
use getarp.Base.Int.{ℤ, pos, negsuc}
use getarp.Base.Exec.{Result, ok, raise}
use getarp.Base.Dict.{Dict}
use getarp.Base.{
  ℕ, ◌+◌, ◌-◌, max, String, ◌==◌, Bool, true, false, ◌&&◌, ◌||◌, not, Option, none, some, List, [],
  ◌∷◌, ◌++◌, length, take, ltb, leb, elem, keep, map, text_append, text_take, if◌then◌else◌,
}
use getarp.Retry.{Ex, plain, value_error}
use getarp.Analytics.Event.{Ev, Finding, attack, login_detail, command_detail, signature_detail}
use getarp.Analytics.Dedupe.{dup}

-- `et in ("login_attempt", "login_success")`
abbrev pub is_login : Ev → Bool
is_login e = e.event_type == "login_attempt" || e.event_type == "login_success"

-- `recent_logins`
unfoldable pub recent_logins : ℕ → ℕ → List Ev → List Ev
recent_logins bf_window now window = keep (λ e. is_login e && leb (now - e.recv) bf_window) window

-- the first of each text: `dict.fromkeys`
unfoldable pub distinct : List String → List String → List String
distinct seen [] = []
distinct seen (s ∷ ss) =
    let rest = distinct seen ss in
    let more = distinct (s ∷ seen) ss in if elem s seen then rest else s ∷ more

abbrev join_commas : List String → String
join_commas [] = ""
join_commas (s ∷ []) = s
join_commas (s ∷ ss) = text_append s (text_append "," (join_commas ss))

-- the services of a set, in the order met, which need not be Python's
abbrev services_text : List Ev → String
services_text evs = join_commas (keep (λ s. not (s == "")) (distinct [] (map (λ e. e.service) evs)))

-- the finding about these logins
unfoldable pub login_finding : String → List Ev → Finding
login_finding ip evs =
    let users = distinct [] (map (λ e. e.username) evs) in
    attack ip (if ltb 3 (length users) then "cred_stuffing" else "bruteforce") (services_text evs) 2
      (login_detail (length evs) (length users) (take 10 users))

-- what a detector has found, or how it raised, and its memory after
abbrev Found : Type 0
Found = Result Ex (List Finding) × Dict ℕ

abbrev pub report_new : Finding → Bool × Dict ℕ → Found
report_new f (true, d) = (ok [], d)
report_new f (false, d) = (ok (f ∷ []), d)

abbrev pub bf_key : String → String
bf_key ip = text_append ip ":bf"

-- 1) brute force
unfoldable pub on_login : ℕ → ℕ → String → ℕ → List Ev → Dict ℕ → Found
on_login threshold bf_window ip now window d =
    let logins = recent_logins bf_window now window in
    if leb threshold (length logins)
    then report_new (login_finding ip logins) (dup bf_window (bf_key ip) now d)
    else (ok [], d)

-- 2) a command after a login
unfoldable pub on_command : ℕ → String → Ev → ℕ → Dict ℕ → Found
on_command bf_window ip e now d =
    if e.command == ""
    then (ok [], d)
    else report_new
        (attack ip "post_auth_exec" e.service 3 (command_detail (text_take 500 e.command)))
        (dup bf_window (text_append ip ":exec") now d)

-- `max(2, 4 - sev)`
unfoldable pub alert_severity : ℤ → ℕ
alert_severity (pos n) = max 2 (4 - n)
alert_severity (negsuc n) = 5 + n

-- `int(event.get("severity") or 2)`
abbrev pub severity_of : (String → Option ℤ) → Ev → Option ℤ
severity_of int_of e = if e.severity == "" then some (pos 2) else int_of e.severity

-- 3) an exploit signature
unfoldable pub on_alert : (String → Option ℤ) → String → Ev → Dict ℕ → Found
on_alert int_of ip e d = if e.signature == "" then (ok [], d) else elim (severity_of int_of e) [
  | none ↦ (raise (plain value_error "invalid literal for int()"), d)
  | some sev ↦ (
    ok (attack ip "exploit" e.service (alert_severity sev) (signature_detail e.signature) ∷ []),
    d,
  )
]

-- `on_event`: the event type chooses one of the three
unfoldable pub on_event : (String → Option ℤ) → ℕ → ℕ → String → Ev → ℕ → List Ev → Dict ℕ → Found
on_event int_of threshold bf_window ip e now window d =
    if is_login e
    then on_login threshold bf_window ip now window d
    else if e.event_type == "command"
    then on_command bf_window ip e now d
    else if e.event_type == "alert"
    then on_alert int_of ip e d
    else (ok [], d)
