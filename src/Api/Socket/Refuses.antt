-- ===== src/Api/Socket/Refuses.antt =====
-- What lost slots do to the endpoint.
use getarp.Base.{
  ◌≤◌, String, Bool, true, false, none, some, List, [], ◌∷◌, leb, ◌≡◌, inl, inr, refl, arith,
  Bool-cases, Option-cases, str_refl,
}
use getarp.Base.Dict.{Dict, get, get-put}
use getarp.Api.Socket.{
  Phase, checked, accepting, subscribing, waiting, closed, failed, lost, finished, State,
  max_connections, move, admit, enter, resume, Op, issue, expire, connect, proceed, step, run,
}
use getarp.Api.Socket.Counted.{
  one, tally, has_slot, is_lost, tally-put-new, tally-put-old, IsCounted, run-IsCounted,
}

-- as many sockets are lost as before, or more
abbrev Grows : State → State → Type 0
Grows s t = tally is_lost s.sockets ≤ tally is_lost t.sockets

new-Grows : (x : Phase) (id : String) (s : State) → get s.sockets id ≡ none → Grows s (move id x s)
new-Grows x id s new = omega (arith, tally-put-new is_lost s.sockets id x new)

old-Grows :
    (x w : Phase) (id : String) (s : State)
    → get s.sockets id ≡ some w
    → is_lost w ≡ false
    → Grows s (move id x s)
old-Grows x w id s here alive = ground (arith, tally-put-old is_lost s.sockets id x w here)

enter-Grows :
    (id ticket : String) (s : State) → get s.sockets id ≡ none → Grows s (enter id ticket s)
unfolding enter admit
enter-Grows id ticket s new = ground (
  arith,
  new-Grows (closed 1013) id s new,
  new-Grows accepting id s new,
  new-Grows (checked ticket) id s new,
  new-Grows (closed 4401) id s new,
)

resume-Grows :
    (ok : Bool) (w : Phase) (id : String) (s : State)
    → get s.sockets id ≡ some w
    → Grows s (resume ok id w s)
unfolding resume admit
resume-Grows true (checked ticket) id s here = ground (
  arith,
  old-Grows (closed 1013) (checked ticket) id s here refl,
  old-Grows accepting (checked ticket) id s here refl,
)
resume-Grows true accepting id s here = old-Grows subscribing accepting id s here refl
resume-Grows true subscribing id s here = old-Grows waiting subscribing id s here refl
resume-Grows true waiting id s here = old-Grows finished waiting id s here refl
resume-Grows false (checked ticket) id s here = old-Grows failed (checked ticket) id s here refl
resume-Grows false accepting id s here = old-Grows failed accepting id s here refl
resume-Grows false subscribing id s here = old-Grows lost subscribing id s here refl
resume-Grows false waiting id s here = old-Grows lost waiting id s here refl
resume-Grows ok (closed code) id s here = omega arith
resume-Grows ok failed id s here = omega arith
resume-Grows ok lost id s here = omega arith
resume-Grows ok finished id s here = omega arith

step-Grows : (op : Op) (s : State) → Grows s (step op s)
unfolding step
step-Grows (issue ticket) s = omega arith
step-Grows (expire ticket) s = omega arith
step-Grows (connect id ticket) s = elim (Option-cases (get s.sockets id)) [
  | inl new ↦ rw new (enter-Grows id ticket s new)
  | inr (w, here) ↦ rw here (omega arith)
]
step-Grows (proceed ok id) s = elim (Option-cases (get s.sockets id)) [
  | inl new ↦ rw new (omega arith)
  | inr (w, here) ↦ rw here (resume-Grows ok w id s here)
]

run-Grows : (ops : List Op) (s : State) → Grows s (run ops s)
unfolding run
run-Grows [] s = omega arith
run-Grows (op ∷ ops) s = omega (arith, step-Grows op s, run-Grows ops (step op s))

one-lost : (x : Phase) → one (is_lost x) ≤ one (has_slot x)
one-lost lost = omega arith
one-lost (checked ticket) = omega arith
one-lost accepting = omega arith
one-lost subscribing = omega arith
one-lost waiting = omega arith
one-lost (closed code) = omega arith
one-lost failed = omega arith
one-lost finished = omega arith

-- a lost socket has its slot
lost-slots : (d : Dict Phase) → tally is_lost d ≤ tally has_slot d
unfolding tally
lost-slots [] = omega arith
lost-slots ((id, x) ∷ d) = omega (arith, one-lost x, lost-slots d)

full-admit :
    (id : String) (s : State)
    → max_connections ≤ s.connections
    → get (admit id s).sockets id ≡ some (closed 1013)
unfolding admit
full-admit id s full = elim (Bool-cases (leb max_connections s.connections)) [
  | inl shut ↦ rw shut (ground (arith, get-put id (closed 1013) s.sockets id, str_refl id))
  | inr free ↦ absurd (ground arith)
]

-- Once 200 sockets have ended by an exception while they had their slot, whatever happens after that,
-- a new socket without a ticket is closed with the code 1013, even if no other socket is open.
pub run_refuses :
    (ops : List Op) (s : State) (id : String)
    → IsCounted s
    → max_connections ≤ tally is_lost s.sockets
    → get (run ops s).sockets id ≡ none
    → get (step (connect id "") (run ops s)).sockets id ≡ some (closed 1013)
unfolding step enter
run_refuses ops s id h gone new = rw new (
    full-admit id (run ops s)
      (omega (arith, gone, run-Grows ops s, lost-slots (run ops s).sockets, run-IsCounted ops s h)))
