-- ===== src/Analytics/Engine/Writes.antt =====
-- What every call of `persist_finding` keeps, however it ends, the detectors of an event keep.
use getarp.Base.Exec.{Result, ok, raise}
use getarp.Base.{ℕ, suc, String, List, [], ◌∷◌}
use getarp.Retry.{Ex}
use getarp.Analytics.Event.{Ev, Finding}
use getarp.Analytics.Windows.{Window}
use getarp.Analytics.Findings.{
  Detector, Engine, Fate, done, unwritten, unranked, unpublished, persist, persist_all,
}
use getarp.Analytics.Engine.{Settings, on_event, keep_findings, run_detectors}

module _ (P : Engine → Type 0)
    (kept : (x : Fate) (f : Finding) (s : Engine) → P s → P (persist x f s).1) where
  persist_all_keeps :
      (fs : List Finding) (xs : List Fate) (s : Engine) → P s → P (persist_all fs xs s).1
  unfolding persist_all persist
  persist_all_keeps [] xs s h = h
  persist_all_keeps (f ∷ fs) [] s h = persist_all_keeps fs [] (persist done f s).1 (kept done f s h)
  persist_all_keeps (f ∷ fs) (done ∷ xs) s h =
      persist_all_keeps fs xs (persist done f s).1 (kept done f s h)
  persist_all_keeps (f ∷ fs) (unwritten ex ∷ xs) s h = kept (unwritten ex) f s h
  persist_all_keeps (f ∷ fs) (unranked ex ∷ xs) s h = kept (unranked ex) f s h
  persist_all_keeps (f ∷ fs) (unpublished ex ∷ xs) s h = kept (unpublished ex) f s h

  keep_findings_keeps :
      (r : Result Ex (List Finding)) (xs : List Fate) (s : Engine)
      → P s
      → P (keep_findings r xs s).1
  unfolding keep_findings
  keep_findings_keeps (ok fs) xs s h = persist_all_keeps fs xs s h
  keep_findings_keeps (raise ex) xs s h = h

  pub run_detectors_keeps :
      (c : Settings) (times : ℕ → ℕ) (ip : String) (e : Ev) (win : Window) (ds : List Detector)
      (xs : List Fate) (s : Engine)
      → P s
      → P (run_detectors c times ip e win ds xs s).1
  unfolding run_detectors
  run_detectors_keeps c times ip e win [] xs s h = h
  run_detectors_keeps c times ip e win (d ∷ ds) xs s h =
      let found = on_event c (times 0) ip e win d in
      let next = keep_findings found.0 xs s in
      run_detectors_keeps c (λ k. times (suc k)) ip e win ds next.0 next.1
        (keep_findings_keeps found.0 xs s h)
