-- ===== src/Analytics/Engine/Isolated.antt =====
-- What a detector that raises, or a write that fails, leaves.
use getarp.Base.{
  ℕ, suc, String, ◌==◌, Bool, true, false, ◌&&◌, not, List, [], ◌∷◌, ◌++◌, length, leb, or_else,
  if◌then◌else◌, append_nil, append_assoc, ◌≡◌, inl, inr, refl, sym, ap, ◌∙◌, ap₂, arith,
  Bool-cases,
}
use getarp.Base.Dict.{get, has, put}
use getarp.Analytics.Evict.{coldest, remove_all}
use getarp.Analytics.Profile.{new_profile, update}
use getarp.Analytics.Engine.Writes.{run_detectors_keeps}
use getarp.Analytics.Event.{Ev, Finding, scan, attack}
use getarp.Analytics.Windows.{Window, observe}
use getarp.Analytics.Flush.{
  State, make_room, evict_profiles, update_profile, touch, discard_all, add, age,
}
use getarp.Analytics.Findings.{
  Detector, Engine, Fate, done, unwritten, unranked, unpublished, insert_finding, rank_finding,
  publish_finding, persist,
}
use getarp.Analytics.Engine.{
  Settings, Moment, on_event, keep_findings, run_detectors, handle_event, Entry, ack, consume_batch,
}

-- the same windows, detectors, profiles, marks and acknowledgements
abbrev pub SameView : Engine → Engine → Type 0
SameView s t =
    (s.windows ≡ t.windows)
    × (s.detectors ≡ t.detectors)
    × (s.memory.profiles ≡ t.memory.profiles)
    × (s.memory.dirty ≡ t.memory.dirty)
    × (s.acked ≡ t.acked)

persist_same :
    (t : Engine) (x : Fate) (f : Finding) (s : Engine) → SameView s t → SameView (persist x f s).1 t
unfolding persist insert_finding rank_finding publish_finding
persist_same t done (scan ip type ports detail) s h = h
persist_same t done (attack ip type service severity detail) s h = h
persist_same t (unwritten ex) f s h = h
persist_same t (unranked ex) (scan ip type ports detail) s h = h
persist_same t (unranked ex) (attack ip type service severity detail) s h = h
persist_same t (unpublished ex) (scan ip type ports detail) s h = h
persist_same t (unpublished ex) (attack ip type service severity detail) s h = h

-- the detectors after an event, each of which depends on itself only
pub judged : Settings → (ℕ → ℕ) → String → Ev → Window → List Detector → List Detector
judged c times ip e win [] = []
judged c times ip e win (d ∷ ds) =
    (on_event c (times 0) ip e win d).1 ∷ judged c (λ k. times (suc k)) ip e win ds

run_detectors-judged :
    (c : Settings) (times : ℕ → ℕ) (ip : String) (e : Ev) (win : Window) (ds : List Detector)
    (xs : List Fate) (s : Engine)
    → (run_detectors c times ip e win ds xs s).0 ≡ judged c times ip e win ds
unfolding run_detectors judged
run_detectors-judged c times ip e win [] xs s = refl
run_detectors-judged c times ip e win (d ∷ ds) xs s =
    let found = on_event c (times 0) ip e win d in
    let next = keep_findings found.0 xs s in
    ap (λ l. found.1 ∷ l) (run_detectors-judged c (λ k. times (suc k)) ip e win ds next.0 next.1)

-- the profiles and the marks of two memories are the same
abbrev SameProfiles : State → State → Type 0
SameProfiles a b = (a.profiles ≡ b.profiles) × (a.dirty ≡ b.dirty)

evict_same :
    (limit : ℕ) (a b : State)
    → SameProfiles a b
    → SameProfiles (evict_profiles limit a) (evict_profiles limit b)
unfolding evict_profiles
evict_same limit a b h = (
  ap (λ p. remove_all (coldest age limit p) p) h.0,
  ap₂ (λ p d. discard_all (coldest age limit p) d) h.0 h.1,
)

branch_same :
    (p q : Bool) (a a' b b' : State)
    → p ≡ q
    → SameProfiles a a'
    → SameProfiles b b'
    → SameProfiles (if p then a else b) (if q then a' else b')
branch_same true true a a' b b' e h k = h
branch_same false false a a' b b' e h k = k
branch_same true false a a' b b' e h k = cc
branch_same false true a a' b b' e h k = cc

make_room_same :
    (limit : ℕ) (ip : String) (a b : State)
    → SameProfiles a b
    → SameProfiles (make_room limit ip a) (make_room limit ip b)
unfolding make_room
make_room_same limit ip a b h =
    branch_same _ _ _ _ a b (ap (λ p. not (has p ip) && leb limit (length p)) h.0)
      (evict_same limit a b h) h

touch_same :
    (signs : String → String → Bool) (limit : ℕ) (ip : String) (e : Ev) (now : ℕ) (a b : State)
    → SameProfiles a b
    → SameProfiles (touch signs limit ip e now a) (touch signs limit ip e now b)
unfolding touch update_profile
touch_same signs limit ip e now a b h =
    let r = make_room_same limit ip a b h in
    (
      ap (λ p. put p ip (update signs now e (or_else (get p ip) (new_profile now)))) r.0,
      ap (add ip) r.1,
    )

-- `handle_event` if nothing that is found were written
pub undisturbed : Settings → Moment → String → Ev → Engine → Engine
undisturbed c m ip e s =
    if ip == ""
    then s
    else (let ws = observe c.max_ips c.max_events c.keep_s m.trimmed ip e s.windows in
        record s {
          windows = ws;
          detectors = judged c m.detected ip e (or_else (get ws ip) []) s.detectors;
          memory = touch c.signs c.max_profiles ip e m.updated s.memory;
        })

-- However the writes of an event end: the windows, the memory of every detector, the profiles and their
-- marks are what they are if nothing found is written, so a failure of one detector or of one write
-- costs neither the event, nor its profile, nor another detector's view.
pub handle_event_isolated :
    (c : Settings) (m : Moment) (ip : String) (e : Ev) (s : Engine)
    → SameView (handle_event c m ip e s) (undisturbed c m ip e s)
unfolding handle_event undisturbed
handle_event_isolated c m ip e s = elim (Bool-cases (ip == "")) [
  | inl nobody ↦ rw nobody (refl, refl, refl, refl, refl)
  | inr known ↦
      let ws = observe c.max_ips c.max_events c.keep_s m.trimmed ip e s.windows in
      let s' = record s { windows = ws } in
      let win = or_else (get ws ip) [] in
      let run = run_detectors c m.detected ip e win s.detectors m.fates s' in
      let view : SameView run.1 s' =
        run_detectors_keeps (λ t. SameView t s') (persist_same s') c m.detected ip e win s.detectors
          m.fates s' (refl, refl, refl, refl, refl) in
      let (w, ds, ps, dirty, acked) = view in
      let touched =
        touch_same c.signs c.max_profiles ip e m.updated run.1.memory s.memory (ps, dirty) in
      rw known (
        w,
        run_detectors-judged c m.detected ip e win s.detectors m.fates s',
        touched.0,
        touched.1,
        acked,
      )
]

-- the entries whose acknowledgement reached Redis
pub acknowledged : List Entry → List String
acknowledged [] = []
acknowledged (e ∷ es) = if e.ack_fails then acknowledged es else e.id ∷ acknowledged es

undisturbed_acked :
    (c : Settings) (m : Moment) (ip : String) (e : Ev) (s : Engine)
    → (undisturbed c m ip e s).acked ≡ s.acked
unfolding undisturbed
undisturbed_acked c m ip e s = ground arith

ack_acked :
    (e : Entry) (s : Engine)
    → (ack e s).acked ≡ (if e.ack_fails then s.acked else s.acked ++ e.id ∷ [])
unfolding ack
ack_acked e s = ground arith

more_acked :
    (lost : Bool) (id : String) (l m : List String)
    → (if lost then l else l ++ id ∷ []) ++ m ≡ l ++ (if lost then m else id ∷ m)
more_acked true id l m = refl
more_acked false id l m = append_assoc l (id ∷ []) m

-- Every entry of a batch is acknowledged, in order, whatever happens while it is handled, unless the
-- acknowledgement itself fails.
pub consume_batch_acked :
    (c : Settings) (es : List Entry) (s : Engine)
    → (consume_batch c es s).acked ≡ s.acked ++ acknowledged es
unfolding consume_batch acknowledged
consume_batch_acked c [] s = sym (append_nil s.acked)
consume_batch_acked c (e ∷ es) s =
    let t = handle_event c e.moment e.src_ip e.event s in
    let unseen : t.acked ≡ s.acked =
      (handle_event_isolated c e.moment e.src_ip e.event s).4
      ∙ undisturbed_acked c e.moment e.src_ip e.event s in
    consume_batch_acked c es (ack e t)
    ∙ ap (λ l. l ++ acknowledged es) (ack_acked e t)
    ∙ ap (λ l. (if e.ack_fails then l else l ++ e.id ∷ []) ++ acknowledged es) unseen
    ∙ more_acked e.ack_fails e.id s.acked (acknowledged es)
