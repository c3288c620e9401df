-- ===== src/Analytics/Flush.antt =====
-- The profiles in memory and their persistence: the end of `handle_event`, `_evict_profiles`,
-- `flush_profiles` and `gc_state` of analytics/engine.py. `flush_profiles` awaits the database after
-- each profile, so events and collections come between its writes: it is one step for its start and
-- one for each round of its loop.
pub mod Kept
pub mod Keeps
pub mod Settles
use getarp.Base.{
  ℕ, ◌-◌, String, ◌==◌, Bool, true, false, ◌&&◌, not, Option, none, some, List, [], ◌∷◌, length,
  leb, ltb, elem, keep, map, or_else, if◌then◌else◌,
}
use getarp.Base.Dict.{Dict, get, put, has}
use getarp.Retry.{Ex, Clients, is_transient}
use getarp.Analytics.Event.{Ev}
use getarp.Analytics.Evict.{coldest, remove_all}
use getarp.Analytics.Profile.{Profile, new_profile, update}
use getarp.Analytics.Rank.{Standing}
use getarp.Analytics.Snapshot.{Snap, snapshot, Row, upsert_profile, update_standing}

-- `dirty` is `self._dirty`, `pending` what the flush that runs has still to visit, `rows` the table
-- `behavior_profiles`, `ips` the columns of `ips`, and `dropped` the sources whose snapshot was refused
-- for good.
pub record State : Type 0 where
  pub profiles : Dict Profile
  pub dirty : List String
  pub pending : List String
  pub rows : Dict Row
  pub ips : Dict Standing
  pub dropped : List String

-- How a call of `persist_profile` ends: written; refused before the first statement has an effect; or
-- between the two.
pub data Outcome : Type 0 where
  written : Outcome
  refused : Ex → Outcome
  halfway : Ex → Outcome

-- `set.add`
abbrev pub add : String → List String → List String
add s set = if elem s set then set else s ∷ set

-- `set.discard`, of each key
unfoldable pub discard_all : List String → List String → List String
discard_all ks set = keep (λ s. not (elem s ks)) set

abbrev pub age : Profile → ℕ
age p = p.last

-- `_evict_profiles`
unfoldable pub evict_profiles : ℕ → State → State
evict_profiles cap s =
    let old = coldest age cap s.profiles in
    record s { profiles = remove_all old s.profiles; dirty = discard_all old s.dirty }

-- the guard of the eviction
unfoldable pub make_room : ℕ → String → State → State
make_room cap ip s =
    if not (has s.profiles ip) && leb cap (length s.profiles) then evict_profiles cap s else s

-- `self.profiler.update(self.profiles[ip], ev)` and `self._dirty.add(ip)`
unfoldable pub update_profile : (String → String → Bool) → String → Ev → ℕ → State → State
update_profile signs ip e now s =
    let p = or_else (get s.profiles ip) (new_profile now) in
    record s { profiles = put s.profiles ip (update signs now e p); dirty = add ip s.dirty }

-- the end of `handle_event`
unfoldable pub touch : (String → String → Bool) → ℕ → String → Ev → ℕ → State → State
touch signs cap ip e now s = update_profile signs ip e now (make_room cap ip s)

abbrev idle : ℕ → Profile → Bool
idle now p = ltb p.last (now - 86400)

-- `stale_profiles`
abbrev pub stale_profiles : ℕ → Dict Profile → List String
stale_profiles now d = map (λ x. x.0) (keep (λ x. idle now x.1) d)

-- `gc_state`, of the profiles
unfoldable pub gc_profiles : ℕ → State → State
gc_profiles now s = record s { profiles = remove_all (stale_profiles now s.profiles) s.profiles }

-- `dirty, self._dirty = self._dirty, set()`
unfoldable pub begin_flush : State → State
begin_flush s = record s { dirty = []; pending = s.dirty }

-- the `except`
unfoldable pub after_failure : Clients → String → Ex → State → State
after_failure cl ip ex s =
    if is_transient cl ex
    then record s { dirty = add ip s.dirty }
    else record s { dropped = add ip s.dropped }

abbrev pub insert_row : Snap → State → State
insert_row snap s = record s { rows = upsert_profile snap s.rows }

-- `persist_profile`, and the `except`
unfoldable pub persist : Clients → Outcome → String → Snap → State → State
persist cl written ip snap s =
    let s' = insert_row snap s in record s' { ips = update_standing snap s'.ips }
persist cl (refused ex) ip snap s = after_failure cl ip ex s
persist cl (halfway ex) ip snap s = after_failure cl ip ex (insert_row snap s)

-- one round of the loop of `flush_profiles`
unfoldable pub flush_next : Clients → Outcome → List String → State → State
flush_next cl out [] s = s
flush_next cl out (ip ∷ rest) s =
    let s' = record s { pending = rest } in
    elim (get s.profiles ip) [ none ↦ s' | some p ↦ persist cl out ip (snapshot ip p) s' ]

-- what happens: an event, a collection, the start of a flush, or a round of its loop
pub data Op : Type 0 where
  event : String → Ev → ℕ → Op
  collect : ℕ → Op
  begin : Op
  next : Outcome → Op

-- one flush at a time: the next starts when the loop has ended
abbrev pub begin_if_idle : List String → State → State
begin_if_idle [] s = begin_flush s
begin_if_idle (ip ∷ rest) s = s

unfoldable pub step : (String → String → Bool) → Clients → ℕ → Op → State → State
step signs cl cap (event ip e now) s = touch signs cap ip e now s
step signs cl cap (collect now) s = gc_profiles now s
step signs cl cap begin s = begin_if_idle s.pending s
step signs cl cap (next out) s = flush_next cl out s.pending s

unfoldable pub run : (String → String → Bool) → Clients → ℕ → List Op → State → State
run signs cl cap [] s = s
run signs cl cap (op ∷ ops) s = run signs cl cap ops (step signs cl cap op s)
