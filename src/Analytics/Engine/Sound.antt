-- ===== src/Analytics/Engine/Sound.antt =====
-- What the engine keeps through every batch of the stream.
use getarp.Base.{
  ℕ, ◌≤◌, String, ◌==◌, Bool, ◌&&◌, not, some, List, [], ◌∷◌, length, leb, or_else, ◌≡◌, ◌⊎◌, inl,
  inr, refl, Bool-cases,
}
use getarp.Base.Dict.{get, has}
use getarp.Analytics.Event.{Ev, Finding, scan, attack}
use getarp.Analytics.Evict.{evict}
use getarp.Analytics.Evict.Shrinks.{with_room, room, length-put-room}
use getarp.Analytics.Windows.{observe}
use getarp.Analytics.Windows.Bounded.{IsBounded, observe-IsBounded}
use getarp.Analytics.Profile.{new_profile, update}
use getarp.Analytics.Flush.{State, age, make_room, evict_profiles, update_profile, touch}
use getarp.Analytics.Flush.Kept.{AllKept}
use getarp.Analytics.Flush.Keeps.{touch-AllKept}
use getarp.Analytics.Findings.{
  ScanRow, AttackRow, Ping, Engine, Fate, done, unwritten, unranked, unpublished, or_none,
  insert_finding, rank_finding, publish_finding, persist,
}
use getarp.Analytics.Engine.{
  Settings, Moment, run_detectors, handle_event, Entry, ack, consume_batch,
}
use getarp.Analytics.Engine.Writes.{run_detectors_keeps}

-- the row is in the table
abbrev pub Holds : {A : Type 0} → A → List A → Type 0
Holds a [] = ⊥
Holds a (b ∷ bs) = (a ≡ b) ⊎ Holds a bs

-- what is published has a row behind it
abbrev pub IsBacked : Engine → Ping → Type 0
IsBacked s p =
    ((r : ScanRow) × Holds r s.scan_events
      × (p ≡ record { kind = "scan"; src_ip = r.src_ip; label = some r.scan_type }))
    ⊎ ((r : AttackRow) × Holds r s.attack_events
        × (p ≡ record { kind = "attack"; src_ip = r.src_ip; label = or_none r.attack_type }))

-- the memory is bounded, the profiles are kept and the pings are backed
pub record IsSound (c : Settings) (s : Engine) : Type 0 where
  pub windows : IsBounded c.max_ips c.max_events s.windows
  pub profiles : length s.memory.profiles ≤ c.max_profiles
  pub kept : AllKept s.memory
  pub backed : (p : Ping) → Holds p s.pings → IsBacked s p

insert-IsBacked :
    (f : Finding) (p : Ping) (s : Engine) → IsBacked s p → IsBacked (insert_finding f s) p
unfolding insert_finding
insert-IsBacked (scan ip type ports detail) p s (inl (r, h, e)) = inl (r, inr h, e)
insert-IsBacked (scan ip type ports detail) p s (inr h) = inr h
insert-IsBacked (attack ip type service severity detail) p s (inl h) = inl h
insert-IsBacked (attack ip type service severity detail) p s (inr (r, h, e)) = inr (r, inr h, e)

insert-IsSound :
    (c : Settings) (f : Finding) (s : Engine) → IsSound c s → IsSound c (insert_finding f s)
unfolding insert_finding
insert-IsSound c (scan ip type ports detail) s h = record {
  windows = h.windows;
  profiles = h.profiles;
  kept = h.kept;
  backed = λ p held. insert-IsBacked (scan ip type ports detail) p s (h.backed p held);
}
insert-IsSound c (attack ip type service severity detail) s h = record {
  windows = h.windows;
  profiles = h.profiles;
  kept = h.kept;
  backed = λ p held. insert-IsBacked (attack ip type service severity detail) p s (h.backed p held);
}

rank-IsSound :
    (c : Settings) (f : Finding) (s : Engine) → IsSound c s → IsSound c (rank_finding f s)
unfolding rank_finding
rank-IsSound c f s h = record {
  windows = h.windows;
  profiles = h.profiles;
  kept = h.kept;
  backed = h.backed;
}

-- the ping of a finding that was just inserted
published-IsSound :
    (c : Settings) (f : Finding) (s : Engine)
    → IsSound c s
    → IsSound c (publish_finding f (rank_finding f (insert_finding f s)))
unfolding publish_finding rank_finding insert_finding
published-IsSound c (scan ip type ports detail) s h =
    let h' =
      rank-IsSound c (scan ip type ports detail) _
        (insert-IsSound c (scan ip type ports detail) s h) in
    record {
      windows = h'.windows;
      profiles = h'.profiles;
      kept = h'.kept;
      backed = λ p held. elim held [ inl new ↦ inl (_, inl refl, new) | inr old ↦ h'.backed p old ];
    }
published-IsSound c (attack ip type service severity detail) s h =
    let h' =
      rank-IsSound c (attack ip type service severity detail) _
        (insert-IsSound c (attack ip type service severity detail) s h) in
    record {
      windows = h'.windows;
      profiles = h'.profiles;
      kept = h'.kept;
      backed = λ p held. elim held [ inl new ↦ inr (_, inl refl, new) | inr old ↦ h'.backed p old ];
    }

persist-IsSound :
    (c : Settings) (x : Fate) (f : Finding) (s : Engine) → IsSound c s → IsSound c (persist x f s).1
unfolding persist
persist-IsSound c done f s h = published-IsSound c f s h
persist-IsSound c (unwritten ex) f s h = h
persist-IsSound c (unranked ex) f s h = insert-IsSound c f s h
persist-IsSound c (unpublished ex) f s h = rank-IsSound c f _ (insert-IsSound c f s h)

-- the profiles after the eviction that makes room for one more
roomy_profiles :
    (limit : ℕ) (ip : String) (m : State)
    → (make_room limit ip m).profiles ≡ with_room age limit ip m.profiles
unfolding make_room evict_profiles evict
roomy_profiles limit ip m =
    elim (Bool-cases (not (has m.profiles ip) && leb limit (length m.profiles))) [
      | inl full ↦ rw full refl
      | inr free ↦ rw free refl
    ]

length-touch :
    (signs : String → String → Bool) (limit : ℕ) (ip : String) (e : Ev) (now : ℕ) (m : State)
    → 1 ≤ limit
    → length m.profiles ≤ limit
    → length (touch signs limit ip e now m).profiles ≤ limit
unfolding touch update_profile
length-touch signs limit ip e now m pos h =
    let ps = (make_room limit ip m).profiles in
    let p = update signs now e (or_else (get ps ip) (new_profile now)) in
    rw (roomy_profiles limit ip m) (
      length-put-room limit ip _ (with_room age limit ip m.profiles)
        (room age limit ip m.profiles pos h))

handle_event-IsSound :
    (c : Settings) (m : Moment) (ip : String) (e : Ev) (s : Engine)
    → 1 ≤ c.max_ips
    → 1 ≤ c.max_profiles
    → IsSound c s
    → IsSound c (handle_event c m ip e s)
unfolding handle_event
handle_event-IsSound c m ip e s some_ips some_profiles h = elim (Bool-cases (ip == "")) [
  | inl nobody ↦ rw nobody h
  | inr known ↦
      let ws = observe c.max_ips c.max_events c.keep_s m.trimmed ip e s.windows in
      let s' = record s { windows = ws } in
      let win = or_else (get ws ip) [] in
      let run = run_detectors c m.detected ip e win s.detectors m.fates s' in
      let seen : IsSound c s' = record {
        windows =
            observe-IsBounded c.max_ips c.max_events c.keep_s m.trimmed ip e s.windows some_ips
              h.windows;
        profiles = h.profiles;
        kept = h.kept;
        backed = h.backed;
      } in
      let found : IsSound c run.1 =
        run_detectors_keeps (IsSound c) (persist-IsSound c) c m.detected ip e win s.detectors
          m.fates s' seen in
      rw known (record {
        windows = found.windows;
        profiles =
            length-touch c.signs c.max_profiles ip e m.updated run.1.memory some_profiles
              found.profiles;
        kept = touch-AllKept c.signs c.max_profiles ip e m.updated run.1.memory found.kept;
        backed = found.backed;
      })
]

ack-IsSound : (c : Settings) (e : Entry) (s : Engine) → IsSound c s → IsSound c (ack e s)
unfolding ack
ack-IsSound c e s h = elim (Bool-cases e.ack_fails) [
  | inl lost ↦ rw lost h
  | inr seen ↦
      rw seen
        (record { windows = h.windows; profiles = h.profiles; kept = h.kept; backed = h.backed })
]

-- Whatever entries a batch has, whatever the detectors raise and wherever `persist_finding` fails:
-- there are at most `max_ips` windows of at most `max_events` events and at most `max_profiles`
-- profiles, every profile in memory is written, marked, pending or refused for good, and everything
-- that was published has its row in `scan_events` or `attack_events`, if all this held before.
pub consume_batch-IsSound :
    (c : Settings) (es : List Entry) (s : Engine)
    → 1 ≤ c.max_ips
    → 1 ≤ c.max_profiles
    → IsSound c s
    → IsSound c (consume_batch c es s)
unfolding consume_batch
consume_batch-IsSound c [] s some_ips some_profiles h = h
consume_batch-IsSound c (e ∷ es) s some_ips some_profiles h =
    let t = handle_event c e.moment e.src_ip e.event s in
    consume_batch-IsSound c es (ack e t) some_ips some_profiles (
      ack-IsSound c e t
        (handle_event-IsSound c e.moment e.src_ip e.event s some_ips some_profiles h))
