-- ===== src/Analytics/Flush/Kept.antt =====
-- When the row of a profile covers what is in memory, and the steps of Analytics.Flush other than writes
-- on it. An eviction takes the profile out of memory together with its mark.
use getarp.Base.{
  ℕ, ◌≤◌, String, ◌==◌, eq_iff, str_refl, Bool, true, ◌&&◌, not, none, some, List, [], ◌∷◌, length,
  leb, elem, keep, or_else, if◌then◌else◌, ◌≡◌, ◌⊎◌, inl, inr, refl, arith, Bool-cases,
}
use getarp.Base.Dict.{Dict, get, remove, has, get-put, get-remove}
use getarp.Analytics.Event.{Ev}
use getarp.Analytics.Evict.{coldest, remove_all}
use getarp.Analytics.Profile.{Profile, new_profile, update}
use getarp.Analytics.Rank.{rank}
use getarp.Analytics.Snapshot.{Snap, snapshot, Row}
use getarp.Analytics.Flush.{
  State, add, discard_all, age, evict_profiles, make_room, update_profile, stale_profiles,
  gc_profiles,
}

-- the row has at least what the snapshot says
pub record Covers (r : Row) (s : Snap) : Type 0 where
  pub score : s.threat_score ≤ r.threat_score
  pub sessions : s.sessions ≤ r.sessions
  pub logins : s.login_attempts ≤ r.detail.login_attempts
  pub class : rank s.classification ≤ rank r.detail.classification

-- the profile is written, or is still to be written, or was refused for good
abbrev pub IsKept : State → String → Profile → Type 0
IsKept s ip p =
    (elem ip s.dirty ≡ true)
    ⊎ (elem ip s.pending ≡ true)
    ⊎ (elem ip s.dropped ≡ true)
    ⊎ ((r : Row) × (get s.rows ip ≡ some r) × Covers r (snapshot ip p))

abbrev pub AllKept : State → Type 0
AllKept s = (ip : String) (p : Profile) → get s.profiles ip ≡ some p → IsKept s ip p

get-remove_all :
    {V : Type 0} (ks : List String) (d : Dict V) (k : String)
    → get (remove_all ks d) k ≡ (if elem k ks then none else get d k)
unfolding remove_all
get-remove_all [] d k = refl
get-remove_all (j ∷ ks) d k =
    ground (arith, get-remove_all ks (remove d j) k, get-remove j d k, eq_iff j k, eq_iff k j)

elem-keep :
    (p : String → Bool) (k : String) (set : List String) → elem k (keep p set) ≡ (elem k set && p k)
elem-keep p k [] = refl
elem-keep p k (j ∷ set) = elim (Bool-cases (j == k)) [
  | inl same ↦ rw ((eq_iff j k).0 same) (ground (arith, elem-keep p k set, str_refl k))
  | inr other ↦ ground (arith, elem-keep p k set)
]

elem-discard_all :
    (ks : List String) (k : String) (set : List String)
    → elem k (discard_all ks set) ≡ (elem k set && not (elem k ks))
unfolding discard_all
elem-discard_all ks k set = elem-keep (λ s. not (elem s ks)) k set

pub elem-add_self : (k : String) (set : List String) → elem k (add k set) ≡ true
elem-add_self k set = ground (arith, str_refl k)

pub elem-add : (j k : String) (set : List String) → elem k set ≡ true → elem k (add j set) ≡ true
elem-add j k set h = ground arith

evict_profiles-AllKept : (cap : ℕ) (s : State) → AllKept s → AllKept (evict_profiles cap s)
unfolding evict_profiles
evict_profiles-AllKept cap s h ip p g =
    let old = coldest age cap s.profiles in
    let from = get-remove_all old s.profiles ip in
    elim (Bool-cases (elem ip old)) [
      | inl gone ↦ absurd (ground arith)
      | inr stays ↦ elim (h ip p (ground arith)) [
        | inl d ↦ inl (ground (arith, elem-discard_all old ip s.dirty))
        | inr rest ↦ inr rest
      ]
    ]

pub make_room-AllKept :
    (cap : ℕ) (ip : String) (s : State) → AllKept s → AllKept (make_room cap ip s)
unfolding make_room
make_room-AllKept cap ip s h =
    elim (Bool-cases (not (has s.profiles ip) && leb cap (length s.profiles))) [
      | inl full ↦ rw full (evict_profiles-AllKept cap s h)
      | inr free ↦ rw free h
    ]

pub update_profile-AllKept :
    (signs : String → String → Bool) (j : String) (e : Ev) (now : ℕ) (s : State)
    → AllKept s
    → AllKept (update_profile signs j e now s)
unfolding update_profile
update_profile-AllKept signs j e now s h ip p g =
    let q = update signs now e (or_else (get s.profiles j) (new_profile now)) in
    elim (Bool-cases (ip == j)) [
      | inl same ↦ inl (rw ((eq_iff ip j).0 same) (elem-add_self j s.dirty))
      | inr other ↦ elim (h ip p (ground (arith, get-put j q s.profiles ip))) [
        | inl d ↦ inl (elem-add j ip s.dirty d)
        | inr rest ↦ inr rest
      ]
    ]

pub gc_profiles-AllKept : (now : ℕ) (s : State) → AllKept s → AllKept (gc_profiles now s)
unfolding gc_profiles
gc_profiles-AllKept now s h ip p g =
    let stale = stale_profiles now s.profiles in
    let from = get-remove_all stale s.profiles ip in
    elim (Bool-cases (elem ip stale)) [
      | inl gone ↦ absurd (ground arith)
      | inr stays ↦ h ip p (ground arith)
    ]
