-- ===== src/Analytics/Scan.antt =====
-- analytics/correlation/scan_detector.py: many distinct ports in a short time.
pub mod Ports
use getarp.Base.{
  ℕ, ◌-◌, String, ◌==◌, Bool, true, false, not, Option, none, some, List, [], ◌∷◌, length, ltb, leb,
  eqb, elem, keep, insert_text, if◌then◌else◌,
}
use getarp.Base.Dict.{Dict}
use getarp.Analytics.Event.{Ev, Finding, scan, scan_detail}
use getarp.Analytics.Dedupe.{dup}

-- `now - e["_recv"] <= window_s`
unfoldable pub recent : ℕ → ℕ → List Ev → List Ev
recent window_s now evs = keep (λ e. leb (now - e.recv) window_s) evs

-- a number added to a sorted list without repetition
unfoldable pub insert : ℕ → List ℕ → List ℕ
insert n [] = n ∷ []
insert n (m ∷ ms) =
    let rest = insert n ms in if ltb n m then n ∷ m ∷ ms else if eqb n m then m ∷ ms else m ∷ rest

-- the port of an event, if its text is one and not 0; `digits` is `int` where `isdigit` holds
abbrev pub port_of : (String → Option ℕ) → Ev → Option ℕ
port_of digits e = elim (digits e.dst_port) [
  | none ↦ none
  | some n ↦ if eqb n 0 then none else some n
]

abbrev pub add_port : Option ℕ → List ℕ → List ℕ
add_port none ports = ports
add_port (some p) ports = insert p ports

-- `sorted({...})`
unfoldable pub ports_of : (String → Option ℕ) → List Ev → List ℕ
ports_of digits [] = []
ports_of digits (e ∷ es) = add_port (port_of digits e) (ports_of digits es)

-- the set of the services, sorted
unfoldable pub services_of : List Ev → List String
services_of [] = []
services_of (e ∷ es) = insert_text e.service (services_of es)

abbrev scan_type : List String → String
scan_type services = if leb 3 (length services) then "sweep" else "vertical"

-- the finding about these events
abbrev pub finding_of : ℕ → String → List ℕ → List String → Finding
finding_of window_s ip ports services =
    scan ip (scan_type services) ports
      (scan_detail (length ports) window_s (keep (λ s. not (s == "")) services))

abbrev report_once : Bool × Dict ℕ → Finding → List Finding × Dict ℕ
report_once (true, d) f = ([], d)
report_once (false, d) f = (f ∷ [], d)

-- `on_event`
unfoldable pub on_event :
    (String → Option ℕ) → ℕ → ℕ → String → ℕ → List Ev → Dict ℕ → List Finding × Dict ℕ
on_event digits threshold window_s ip now window reported =
    let evs = recent window_s now window in
    let ports = ports_of digits evs in
    if ltb (length ports) threshold
    then ([], reported)
    else report_once (dup window_s ip now reported) (finding_of window_s ip ports (services_of evs))
