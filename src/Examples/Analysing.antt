-- ===== src/Examples/Analysing.antt =====
-- The detectors, the windows, the profiles and the standings on a few events.
use getarp.Base.Dict.{Dict, get, put}
use getarp.Base.{
  insert_text, ℕ, ◌-◌, ◌≤◌, ◌<◌, String, ◌==◌, true, Option, none, some, [], ◌∷◌, length, or_else,
  if◌then◌else◌, ◌≡◌, ◌⊎◌, refl, arith,
}
use getarp.Analytics.Event.{Ev, scan, scan_detail}
use getarp.Analytics.Dedupe.{dup}
use getarp.Analytics.Dedupe.Quiet.{ask, pruned, reports, reports_quiet}
use getarp.Analytics.Scan
use getarp.Analytics.Scan.{recent, ports_of, insert, services_of, finding_of}
use getarp.Analytics.Scan.Ports.{Scanned, on_event-Scanned}
use getarp.Analytics.Rank.{Standing, rank}
use getarp.Analytics.Rank.Escalates.{finding, profile, writes, Above, writes-Above}
use getarp.Analytics.Profile.{new_profile, update, score, classify}
use getarp.Analytics.Profile.Grows.{update_raises}

abbrev probe : String → ℕ → Ev
probe port recv = record {
  event_type = "connect";
  service = "tcp";
  session = "";
  username = "";
  command = "";
  signature = "";
  severity = "0";
  dst_port = port;
  recv = recv;
}

abbrev login : Ev
login = record (probe "" 100) { event_type = "login_attempt"; service = "ssh"; username = "root" }

abbrev digits : String → Option ℕ
digits s = if s == "22" then some 22 else if s == "80" then some 80 else none

reports_quiet_example :
    reports 60 "a" (pruned 130 ∷ ask "b" 140 ∷ ask "a" 150 ∷ []) (("a", 100) ∷ []) ≡ 0
unfolding get
reports_quiet_example =
    reports_quiet 60 100 "a" (pruned 130 ∷ ask "b" 140 ∷ ask "a" 150 ∷ []) (("a", 100) ∷ []) refl
      ((omega arith, omega arith), ((omega arith, omega arith), ((omega arith, omega arith), tt)))

two_ports :
    (Scan.on_event digits 2 60 "a" 1100
      (probe "80" 1090 ∷ probe "22" 1095 ∷ probe "80" 1096 ∷ [])
      []).0
    ≡ scan "a" "vertical" (22 ∷ 80 ∷ []) (scan_detail 2 60 ("tcp" ∷ [])) ∷ []
unfolding Scan.on_event recent ports_of insert insert_text services_of dup get
two_ports = refl

on_event-Scanned_example :
    let r = Scan.on_event digits 2 60 "a" 1100 (probe "80" 1090 ∷ probe "22" 1095 ∷ []) [] in
    let ports = ports_of digits (recent 60 1100 (probe "80" 1090 ∷ probe "22" 1095 ∷ [])) in
    ((r.0 ≡ []) × (r.1 ≡ []) × ((length ports < 2) ⊎ (1100 - or_else (get {V = ℕ} [] "a") 0 < 60)))
    ⊎ ((r.0
          ≡ finding_of 60 "a" ports
              (services_of (recent 60 1100 (probe "80" 1090 ∷ probe "22" 1095 ∷ [])))
            ∷ [])
        × (r.1 ≡ put [] "a" 1100)
        × (60 ≤ 1100 - or_else (get {V = ℕ} [] "a") 0)
        × Scanned digits 2 60 1100 (probe "80" 1090 ∷ probe "22" 1095 ∷ []) ports)
on_event-Scanned_example =
    on_event-Scanned digits 2 60 "a" 1100 (probe "80" 1090 ∷ probe "22" 1095 ∷ []) []

abbrev known : Dict Standing
known = ("a", record { classification = "intruder"; threat_score = 850 }) ∷ []

writes-Above_example : Above (get known "a") (
    get
      (writes
        (finding (scan "a" "sweep" (22 ∷ []) (scan_detail 1 60 [])) ∷ profile "a" "prober" 60 ∷ [])
        known)
      "a")
writes-Above_example =
    writes-Above
      (finding (scan "a" "sweep" (22 ∷ []) (scan_detail 1 60 [])) ∷ profile "a" "prober" 60 ∷ [])
      "a" known

update_raises_example :
    (score (new_profile 100) ≤ score (update (λ n s. true) 100 login (new_profile 100)))
    × (score (update (λ n s. true) 100 login (new_profile 100)) ≤ 1000)
    × (rank (classify (new_profile 100))
        ≤ rank (classify (update (λ n s. true) 100 login (new_profile 100))))
update_raises_example = update_raises (λ n s. true) 100 login (new_profile 100)
