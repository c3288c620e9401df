-- ===== src/Analytics/Attack/Logins.antt =====
-- When the attack detector reports.
use getarp.Base.Int.{ℤ, pos, negsuc}
use getarp.Base.Exec.{Result, ok, raise}
use getarp.Base.Dict.{Dict, get, put}
use getarp.Base.{
  ℕ, ◌-◌, ◌≤◌, String, ◌==◌, Bool, true, false, ◌&&◌, not, Option, List, [], ◌∷◌, length, ltb, leb,
  text_append, or_else, if◌then◌else◌, ◌≡◌, inl, inr, refl, arith, Bool-cases, Option-cases,
}
use getarp.Retry.{Ex}
use getarp.Analytics.Event.{Ev, Finding, scan, attack}
use getarp.Analytics.Dedupe.{dup}
use getarp.Analytics.Attack.{
  is_login, recent_logins, login_finding, report_new, bf_key, on_login, on_command, alert_severity,
  severity_of, on_alert, on_event,
}

-- an attack by `ip`, of a severity of at least 2
abbrev pub IsSevere : String → Finding → Type 0
IsSevere ip (scan src t ports d) = ⊥
IsSevere ip (attack src t service sev d) = (src ≡ ip) × (2 ≤ sev)

-- at most one finding, and it is a severe attack by `ip`
abbrev pub AtMostOne : String → Result Ex (List Finding) → Type 0
AtMostOne ip (raise ex) = Unit
AtMostOne ip (ok []) = Unit
AtMostOne ip (ok (f ∷ [])) = IsSevere ip f
AtMostOne ip (ok (f ∷ g ∷ fs)) = ⊥

report_new-AtMostOne :
    (ip : String) (f : Finding) (p : Bool × Dict ℕ)
    → IsSevere ip f
    → AtMostOne ip (report_new f p).0
report_new-AtMostOne ip f (true, d) h = tt
report_new-AtMostOne ip f (false, d) h = h

alert_severity-ge : (z : ℤ) → 2 ≤ alert_severity z
unfolding alert_severity
alert_severity-ge (pos n) = omega arith
alert_severity-ge (negsuc n) = omega arith

on_login-AtMostOne :
    (threshold bf_window : ℕ) (ip : String) (now : ℕ) (window : List Ev) (d : Dict ℕ)
    → AtMostOne ip (on_login threshold bf_window ip now window d).0
unfolding on_login login_finding
on_login-AtMostOne threshold bf_window ip now window d =
    let logins = recent_logins bf_window now window in
    elim (Bool-cases (leb threshold (length logins))) [
      | inl many ↦ rw many (
          report_new-AtMostOne ip (login_finding ip logins) (dup bf_window (bf_key ip) now d)
            (refl, omega arith))
      | inr few ↦ rw few tt
    ]

on_command-AtMostOne :
    (bf_window : ℕ) (ip : String) (e : Ev) (now : ℕ) (d : Dict ℕ)
    → AtMostOne ip (on_command bf_window ip e now d).0
unfolding on_command
on_command-AtMostOne bf_window ip e now d = elim (Bool-cases (e.command == "")) [
  | inl q ↦ rw q tt
  | inr q ↦
      rw q (
        report_new-AtMostOne ip _ (dup bf_window (text_append ip ":exec") now d)
          (refl, omega arith))
]

on_alert-AtMostOne :
    (int_of : String → Option ℤ) (ip : String) (e : Ev) (d : Dict ℕ)
    → AtMostOne ip (on_alert int_of ip e d).0
unfolding on_alert
on_alert-AtMostOne int_of ip e d = elim (Bool-cases (e.signature == "")) [
  | inl q ↦ rw q tt
  | inr q ↦ elim (Option-cases (severity_of int_of e)) [
    | inl s ↦ rw (q, s) tt
    | inr (z, s) ↦ rw (q, s) (refl, alert_severity-ge z)
  ]
]

-- No event leads to more than one attack finding; the finding names the source of the event, and its
-- severity is at least 2, whatever severity Suricata gives.
pub on_event-AtMostOne :
    (int_of : String → Option ℤ) (threshold bf_window : ℕ) (ip : String) (e : Ev) (now : ℕ)
    (window : List Ev) (d : Dict ℕ)
    → AtMostOne ip (on_event int_of threshold bf_window ip e now window d).0
unfolding on_event
on_event-AtMostOne int_of threshold bf_window ip e now window d = elim (Bool-cases (is_login e)) [
  | inl l ↦ rw l (on_login-AtMostOne threshold bf_window ip now window d)
  | inr l ↦ elim (Bool-cases (e.event_type == "command")) [
    | inl c ↦ rw (l, c) (on_command-AtMostOne bf_window ip e now d)
    | inr c ↦ elim (Bool-cases (e.event_type == "alert")) [
      | inl a ↦ rw (l, c, a) (on_alert-AtMostOne int_of ip e d)
      | inr a ↦ rw (l, c, a) tt
    ]
  ]
]

-- A login is reported as brute force exactly if the source made at least `threshold` logins in the
-- window and was not reported for it within the window; then it counts as reported now.
pub on_event_login :
    (int_of : String → Option ℤ) (threshold bf_window : ℕ) (ip : String) (e : Ev) (now : ℕ)
    (window : List Ev) (d : Dict ℕ)
    → is_login e ≡ true
    → let logins = recent_logins bf_window now window in
      let old = ltb (now - or_else (get d (bf_key ip)) 0) bf_window in
      on_event int_of threshold bf_window ip e now window d ≡ (
        if leb threshold (length logins) && not old
        then (ok (login_finding ip logins ∷ []), put d (bf_key ip) now)
        else (ok [], d))
unfolding on_event on_login dup
on_event_login int_of threshold bf_window ip e now window d h =
    let logins = recent_logins bf_window now window in
    elim (Bool-cases (leb threshold (length logins))) [
      | inr few ↦ rw (h, few) refl
      | inl many ↦ elim (Bool-cases (ltb (now - or_else (get d (bf_key ip)) 0) bf_window)) [
        | inl again ↦ rw (h, many, again) refl
        | inr first ↦ rw (h, many, first) refl
      ]
    ]
