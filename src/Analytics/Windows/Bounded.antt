-- ===== src/Analytics/Windows/Bounded.antt =====
-- The memory that the windows take.
use getarp.Base.{
  ℕ, ◌-◌, ◌≤◌, String, ◌==◌, Bool, ◌&&◌, not, List, [], ◌∷◌, ◌++◌, length, length-drop,
  length-keep-le, leb, keep, or_else, All, inl, inr, arith, Bool-cases,
}
use getarp.Base.Dict.{Dict, get, put, remove, has}
use getarp.Analytics.Event.{Ev}
use getarp.Analytics.Evict.{remove_all, coldest, evict}
use getarp.Analytics.Evict.Shrinks.{room, length-put-room}
use getarp.Analytics.Windows.{
  Window, age, append_event, trim, make_room, observe, gc_windows, Tick, event, collect, run,
}

-- at most `max_ips` windows of at most `max_events` events
pub record IsBounded (max_ips max_events : ℕ) (ws : Dict Window) : Type 0 where
  pub few : length ws ≤ max_ips
  pub short : All (λ x. length x.1 ≤ max_events) ws

length-trim : (cutoff : ℕ) (w : Window) → length (trim cutoff w) ≤ length w
unfolding trim
length-trim cutoff [] = omega arith
length-trim cutoff (e ∷ es) = ground (arith, length-trim cutoff es)

length-append_event : (n : ℕ) (e : Ev) (w : Window) → length (append_event n e w) ≤ n
unfolding append_event
length-append_event n e w = let w' = w ++ e ∷ [] in omega (arith, length-drop (length w' - n) w')

-- entries that satisfy a property still do after a write that does
put-All :
    {V : Type 0} (P : V → Type 0) (d : Dict V) (k : String) (v : V)
    → All (λ x. P x.1) d
    → P v
    → All (λ x. P x.1) (put d k v)
unfolding put
put-All P [] k v h p = (p, tt)
put-All P ((j, w) ∷ d) k v h p = elim (Bool-cases (j == k)) [
  | inl q ↦ rw q (p, h.1)
  | inr q ↦ rw q (h.0, put-All P d k v h.1 p)
]

remove-All :
    {V : Type 0} (P : V → Type 0) (k : String) (d : Dict V)
    → All (λ x. P x.1) d
    → All (λ x. P x.1) (remove d k)
unfolding remove
remove-All P k [] h = tt
remove-All P k ((j, w) ∷ d) h = elim (Bool-cases (j == k)) [
  | inl q ↦ rw q (remove-All P k d h.1)
  | inr q ↦ rw q (h.0, remove-All P k d h.1)
]

remove_all-All :
    {V : Type 0} (P : V → Type 0) (ks : List String) (d : Dict V)
    → All (λ x. P x.1) d
    → All (λ x. P x.1) (remove_all ks d)
unfolding remove_all
remove_all-All P [] d h = h
remove_all-All P (k ∷ ks) d h = remove_all-All P ks (remove d k) (remove-All P k d h)

evict-All :
    {V : Type 0} (P : V → Type 0) (age : V → ℕ) (cap : ℕ) (d : Dict V)
    → All (λ x. P x.1) d
    → All (λ x. P x.1) (evict age cap d)
unfolding evict
evict-All P age cap d h = remove_all-All P (coldest age cap d) d h

All-keep : {A : Type 0} (P : A → Type 0) (p : A → Bool) (xs : List A) → All P xs → All P (keep p xs)
All-keep P p [] h = tt
All-keep P p (x ∷ xs) h = elim (Bool-cases (p x)) [
  | inl q ↦ rw q (h.0, All-keep P p xs h.1)
  | inr q ↦ rw q (All-keep P p xs h.1)
]

make_room-short :
    (max_ips max_events : ℕ) (ip : String) (ws : Dict Window)
    → All (λ x. length x.1 ≤ max_events) ws
    → All (λ x. length x.1 ≤ max_events) (make_room max_ips ip ws)
make_room-short max_ips max_events ip ws h =
    elim (Bool-cases (not (has ws ip) && leb max_ips (length ws))) [
      | inl q ↦ rw q (evict-All (λ w. length w ≤ max_events) age max_ips ws h)
      | inr q ↦ rw q h
    ]

pub observe-IsBounded :
    (max_ips max_events keep_s now : ℕ) (ip : String) (e : Ev) (ws : Dict Window)
    → 1 ≤ max_ips
    → IsBounded max_ips max_events ws
    → IsBounded max_ips max_events (observe max_ips max_events keep_s now ip e ws)
unfolding observe
observe-IsBounded max_ips max_events keep_s now ip e ws pos h =
    let ws' = make_room max_ips ip ws in
    let win = append_event max_events e (or_else (get ws' ip) []) in
    let w = trim (now - keep_s) win in
    record {
      few = length-put-room max_ips ip w ws' (room age max_ips ip ws pos h.few);
      short =
          put-All (λ w. length w ≤ max_events) ws' ip w
            (make_room-short max_ips max_events ip ws h.short)
            (omega (
              arith,
              length-trim (now - keep_s) win,
              length-append_event max_events e (or_else (get ws' ip) []),
            ));
    }

gc_windows-IsBounded :
    (max_ips max_events keep_s now : ℕ) (ws : Dict Window)
    → IsBounded max_ips max_events ws
    → IsBounded max_ips max_events (gc_windows keep_s now ws)
unfolding gc_windows
gc_windows-IsBounded max_ips max_events keep_s now ws h = record {
  few = omega (arith, length-keep-le {0} _ ws, h.few);
  short = All-keep (λ x. length x.1 ≤ max_events) _ ws h.short;
}

-- However many sources there are, however fast their events come and whenever the collections run,
-- there are never more than `max_ips` windows, of at most `max_events` events each.
pub run-IsBounded :
    (max_ips max_events keep_s : ℕ) (ts : List Tick) (ws : Dict Window)
    → 1 ≤ max_ips
    → IsBounded max_ips max_events ws
    → IsBounded max_ips max_events (run max_ips max_events keep_s ts ws)
unfolding run
run-IsBounded max_ips max_events keep_s [] ws pos h = h
run-IsBounded max_ips max_events keep_s (event ip e now ∷ ts) ws pos h =
    run-IsBounded max_ips max_events keep_s ts (observe max_ips max_events keep_s now ip e ws) pos
      (observe-IsBounded max_ips max_events keep_s now ip e ws pos h)
run-IsBounded max_ips max_events keep_s (collect now ∷ ts) ws pos h =
    run-IsBounded max_ips max_events keep_s ts (gc_windows keep_s now ws) pos
      (gc_windows-IsBounded max_ips max_events keep_s now ws h)
