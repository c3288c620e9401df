-- ===== src/Api/Socket/Counted.antt =====
-- The count of the slots, and how slots are lost for good.
use getarp.Base.{
  ℕ, ◌+◌, String, ◌==◌, Bool, true, false, none, some, List, [], ◌∷◌, leb, elem, ◌≡◌, inl, inr,
  refl, arith, Bool-cases, Option-cases,
}
use getarp.Base.Dict.{Dict, get, put}
use getarp.Api.Socket.{
  Phase, checked, accepting, subscribing, waiting, closed, failed, lost, finished, State,
  max_connections, move, admit, enter, resume, Op, issue, expire, connect, proceed, step, run,
}

abbrev pub one : Bool → ℕ
one true = 1
one false = 0

-- how many sockets are in a phase that `p` holds of
unfoldable pub tally : (Phase → Bool) → Dict Phase → ℕ
tally p [] = 0
tally p ((id, x) ∷ d) = one (p x) + tally p d

-- the sockets that have a slot, the lost ones included
abbrev pub has_slot : Phase → Bool
has_slot subscribing = true
has_slot waiting = true
has_slot lost = true
has_slot _ = false

abbrev pub is_lost : Phase → Bool
is_lost lost = true
is_lost _ = false

pub tally-put-new :
    (p : Phase → Bool) (d : Dict Phase) (id : String) (x : Phase)
    → get d id ≡ none
    → tally p (put d id x) ≡ tally p d + one (p x)
unfolding tally get put
tally-put-new p [] id x h = omega arith
tally-put-new p ((j, y) ∷ d) id x h = elim (Bool-cases (j == id)) [
  | inl same ↦ absurd (ground arith)
  | inr other ↦ rw other (omega (arith, tally-put-new p d id x (ground arith)))
]

pub tally-put-old :
    (p : Phase → Bool) (d : Dict Phase) (id : String) (x w : Phase)
    → get d id ≡ some w
    → tally p (put d id x) + one (p w) ≡ tally p d + one (p x)
unfolding tally get put
tally-put-old p [] id x w h = absurd (ground arith)
tally-put-old p ((j, y) ∷ d) id x w h = elim (Bool-cases (j == id)) [
  | inl same ↦ let e : y ≡ w = ground arith in rw (same, e) (omega arith)
  | inr other ↦ rw other (omega (arith, tally-put-old p d id x w (ground arith)))
]

abbrev pub IsCounted : State → Type 0
IsCounted s = s.connections ≡ tally has_slot s.sockets

-- a socket that had no slot, if it was there, stays without one
enters-IsCounted :
    (x : Phase) (id : String) (s : State)
    → has_slot x ≡ false
    → get s.sockets id ≡ none
    → IsCounted s
    → IsCounted (move id x s)
enters-IsCounted x id s none_yet new h = ground (arith, tally-put-new has_slot s.sockets id x new)

-- a change of phase that keeps, takes or gives back a slot
moves-IsCounted :
    (n : ℕ) (x w : Phase) (id : String) (s : State)
    → get s.sockets id ≡ some w
    → n + one (has_slot w) ≡ s.connections + one (has_slot x)
    → IsCounted s
    → IsCounted (record (move id x s) { connections = n })
moves-IsCounted n x w id s here change h =
    omega (arith, h, change, tally-put-old has_slot s.sockets id x w here)

admit-IsCounted :
    (w : Phase) (id : String) (s : State)
    → get s.sockets id ≡ some w
    → has_slot w ≡ false
    → IsCounted s
    → IsCounted (admit id s)
unfolding admit
admit-IsCounted w id s here free h = elim (Bool-cases (leb max_connections s.connections)) [
  | inl full ↦ rw full (moves-IsCounted s.connections (closed 1013) w id s here (rw free refl) h)
  | inr room ↦ rw room (moves-IsCounted s.connections accepting w id s here (rw free refl) h)
]

enter-IsCounted :
    (id ticket : String) (s : State)
    → get s.sockets id ≡ none
    → IsCounted s
    → IsCounted (enter id ticket s)
unfolding enter admit
enter-IsCounted id ticket s new h = elim (Bool-cases (ticket == "")) [
  | inl bare ↦ elim (Bool-cases (leb max_connections s.connections)) [
    | inl full ↦ rw (bare, full) (enters-IsCounted (closed 1013) id s refl new h)
    | inr room ↦ rw (bare, room) (enters-IsCounted accepting id s refl new h)
  ]
  | inr given ↦ elim (Bool-cases (elem ticket s.tickets)) [
    | inl good ↦ rw (given, good) (enters-IsCounted (checked ticket) id s refl new h)
    | inr bad ↦ rw (given, bad) (enters-IsCounted (closed 4401) id s refl new h)
  ]
]

resume-IsCounted :
    (ok : Bool) (w : Phase) (id : String) (s : State)
    → get s.sockets id ≡ some w
    → IsCounted s
    → IsCounted (resume ok id w s)
unfolding resume
resume-IsCounted true (checked ticket) id s here h =
    admit-IsCounted (checked ticket) id _ here refl h
resume-IsCounted true accepting id s here h =
    moves-IsCounted (s.connections + 1) subscribing accepting id s here (omega arith) h
resume-IsCounted true subscribing id s here h =
    moves-IsCounted s.connections waiting subscribing id s here refl h
resume-IsCounted true waiting id s here h =
    omega (arith, h, tally-put-old has_slot s.sockets id finished waiting here)
resume-IsCounted false (checked ticket) id s here h =
    moves-IsCounted s.connections failed (checked ticket) id s here refl h
resume-IsCounted false accepting id s here h =
    moves-IsCounted s.connections failed accepting id s here refl h
resume-IsCounted false subscribing id s here h =
    moves-IsCounted s.connections lost subscribing id s here refl h
resume-IsCounted false waiting id s here h =
    moves-IsCounted s.connections lost waiting id s here refl h
resume-IsCounted ok (closed code) id s here h = h
resume-IsCounted ok failed id s here h = h
resume-IsCounted ok lost id s here h = h
resume-IsCounted ok finished id s here h = h

step-IsCounted : (op : Op) (s : State) → IsCounted s → IsCounted (step op s)
unfolding step
step-IsCounted (issue ticket) s h = h
step-IsCounted (expire ticket) s h = h
step-IsCounted (connect id ticket) s h = elim (Option-cases (get s.sockets id)) [
  | inl new ↦ rw new (enter-IsCounted id ticket s new h)
  | inr (w, here) ↦ rw here h
]
step-IsCounted (proceed ok id) s h = elim (Option-cases (get s.sockets id)) [
  | inl new ↦ rw new h
  | inr (w, here) ↦ rw here (resume-IsCounted ok w id s here h)
]

-- However the coroutines of the sockets are interleaved and whichever of their calls raise, the count
-- of connections is the number of sockets that have their slot: those at or after the subscription,
-- and those whose coroutine ended by an exception there, which never give it back.
pub run-IsCounted : (ops : List Op) (s : State) → IsCounted s → IsCounted (run ops s)
unfolding run
run-IsCounted [] s h = h
run-IsCounted (op ∷ ops) s h = run-IsCounted ops (step op s) (step-IsCounted op s h)
