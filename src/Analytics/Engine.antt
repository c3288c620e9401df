-- ===== src/Analytics/Engine.antt =====
-- `Engine.handle_event` of analytics/engine.py as a whole, with the detectors that are enabled,
-- `gc_state`, and the batches of `consume`.
-- An event is handled from its start to its end with nothing of another coroutine in between.
pub mod Writes
pub mod Sound
pub mod Isolated
use getarp.Base.Exec.{Result, ok, raise}
use getarp.Base.Int.{ℤ}
use getarp.Base.{
  ℕ, suc, String, ◌==◌, Bool, Option, List, [], ◌∷◌, ◌++◌, map, or_else, if◌then◌else◌, strip,
  split_char,
}
use getarp.Base.Dict.{Dict, get}
use getarp.Retry.{Ex}
use getarp.Analytics.Event.{Ev, Finding}
use getarp.Analytics.Dedupe
use getarp.Analytics.Scan
use getarp.Analytics.Attack
use getarp.Analytics.Windows.{Window, observe, gc_windows}
use getarp.Analytics.Flush.{touch, gc_profiles}
use getarp.Analytics.Findings.{Detector, scan_detector, attack_detector, Engine, Fate, persist_all}

-- `settings` and the limits of the module; `digits` and `int_of` read numbers, `signs` searches a text
pub record Settings : Type 0 where
  pub digits : String → Option ℕ
  pub int_of : String → Option ℤ
  pub signs : String → String → Bool
  pub port_threshold : ℕ
  pub scan_window : ℕ
  pub login_threshold : ℕ
  pub bf_window : ℕ
  pub max_ips : ℕ
  pub max_events : ℕ
  pub keep_s : ℕ
  pub max_profiles : ℕ

abbrev with_scan : List Finding × Dict ℕ → Result Ex (List Finding) × Detector
with_scan (fs, d) = (ok fs, scan_detector d)

abbrev with_attack : Result Ex (List Finding) × Dict ℕ → Result Ex (List Finding) × Detector
with_attack (r, d) = (r, attack_detector d)

-- the detector of a key, if one is registered, with an empty memory
abbrev pub registered : String → List Detector
registered key =
    if key == "scan"
    then scan_detector [] ∷ []
    else if key == "attack"
    then attack_detector [] ∷ []
    else []

abbrev pub load_keys : List String → List Detector
load_keys [] = []
load_keys (k ∷ ks) = registered (strip k) ++ load_keys ks

-- `load_detectors`
unfoldable pub load_detectors : String → List Detector
load_detectors csv = load_keys (split_char 44 csv)

-- `det.on_event(ip, ev, list(win))`
unfoldable pub on_event :
    Settings → ℕ → String → Ev → Window → Detector → Result Ex (List Finding) × Detector
on_event c now ip e win (scan_detector d) =
    with_scan (Scan.on_event c.digits c.port_threshold c.scan_window ip now win d)
on_event c now ip e win (attack_detector d) =
    with_attack (Attack.on_event c.int_of c.login_threshold c.bf_window ip e now win d)

-- what a detector raises is only printed
unfoldable pub keep_findings : Result Ex (List Finding) → List Fate → Engine → List Fate × Engine
keep_findings (ok fs) fates s = persist_all fs fates s
keep_findings (raise ex) fates s = (fates, s)

-- the loop over the detectors; `times k` is the clock of the k-th
unfoldable pub run_detectors :
    Settings
    → (ℕ → ℕ)
    → String
    → Ev
    → Window
    → List Detector
    → List Fate
    → Engine
    → List Detector × Engine
run_detectors c times ip e win [] fates s = ([], s)
run_detectors c times ip e win (d ∷ ds) fates s =
    let (found, d') = on_event c (times 0) ip e win d in
    let (fates', s') = keep_findings found fates s in
    let (ds', t) = run_detectors c (λ k. times (suc k)) ip e win ds fates' s' in (d' ∷ ds', t)

-- what happens during one event: its readings of the clock after `_recv`, and how the calls of
-- `persist_finding` end
pub record Moment : Type 0 where
  pub trimmed : ℕ
  pub detected : ℕ → ℕ
  pub updated : ℕ
  pub fates : List Fate

-- the end of `handle_event`
abbrev pub remember : Settings → Moment → String → Ev → List Detector × Engine → Engine
remember c m ip e (ds, s) = record s {
  detectors = ds;
  memory = touch c.signs c.max_profiles ip e m.updated s.memory;
}

-- `handle_event`
unfoldable pub handle_event : Settings → Moment → String → Ev → Engine → Engine
handle_event c m ip e s =
    if ip == ""
    then s
    else (let ws = observe c.max_ips c.max_events c.keep_s m.trimmed ip e s.windows in
        let s' = record s { windows = ws } in
        remember c m ip e
          (run_detectors c m.detected ip e (or_else (get ws ip) []) s.detectors m.fates s'))

-- `det.prune(now)`
unfoldable pub prune : Settings → ℕ → Detector → Detector
prune c now (scan_detector d) = scan_detector (Dedupe.prune c.scan_window now d)
prune c now (attack_detector d) = attack_detector (Dedupe.prune c.bf_window now d)

-- `gc_state`
unfoldable pub gc_state : Settings → ℕ → Engine → Engine
gc_state c now s = record s {
  windows = gc_windows c.keep_s now s.windows;
  detectors = map (prune c now) s.detectors;
  memory = gc_profiles now s.memory;
}

-- an entry of the stream, with what happens while it is handled
pub record Entry : Type 0 where
  pub id : String
  pub src_ip : String
  pub event : Ev
  pub moment : Moment
  pub ack_fails : Bool

-- the `finally`, whose failure is suppressed
unfoldable pub ack : Entry → Engine → Engine
ack e s = if e.ack_fails then s else record s { acked = s.acked ++ e.id ∷ [] }

-- the loop over what one `xreadgroup` returned
unfoldable pub consume_batch : Settings → List Entry → Engine → Engine
consume_batch c [] s = s
consume_batch c (e ∷ es) s = consume_batch c es (ack e (handle_event c e.moment e.src_ip e.event s))
