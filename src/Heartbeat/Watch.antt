-- ===== src/Heartbeat/Watch.antt =====
-- The watchdog spares the loops that beat and catches one that does not.
use getarp.Base.{
  ℕ, ◌+◌, ◌-◌, ◌≤◌, ◌<◌, String, ◌==◌, eq_iff, true, false, ◌||◌, none, some, List, [], ◌∷◌, ltb,
  leb, All, or_else, ◌≡◌, inl, inr, refl, sym, arith, Bool-cases,
}
use getarp.Base.Dict.{get, get-put}
use getarp.Heartbeat.Known.{beats, IsKnown, beat_lately, beats-IsKnown, start-IsKnown, beats-lately}
use getarp.Heartbeat.{start, State, min_beat_interval, beat, Specs, age, is_overdue, stale, exits}

fresh-IsKnown :
    (name : String) (u t max_age : ℕ) (s : State)
    → IsKnown name t s
    → u + min_beat_interval ≤ t + max_age
    → is_overdue (age name u s) max_age ≡ false
unfolding age
fresh-IsKnown name u t max_age s (m, seen, here, near) lately = rw (here, age) (ground arith)

stale-none :
    (specs : Specs) (u : ℕ) (s : State)
    → All (λ x. is_overdue (age x.0 u s) x.1 ≡ false) specs
    → stale specs u s ≡ none
unfolding stale
stale-none [] u s h = refl
stale-none ((name, max_age) ∷ specs) u s h = rw (h.0, stale) (stale-none specs u s h.1)

spared : (specs : Specs) (u : ℕ) (s : State) → stale specs u s ≡ none → exits specs u s ≡ false
unfolding exits
spared specs u s h = rw (h, exits) refl

-- the loop has beaten lately, or the process has just started
abbrev pub IsLively : ℕ → ℕ → List (String × ℕ) → String × ℕ → Type 0
IsLively t0 u ops x = (leb (u + min_beat_interval) (t0 + x.1) || beat_lately u x ops) ≡ true

fresh-All :
    (u t0 : ℕ) (ops : List (String × ℕ)) (specs : Specs) (s : State)
    → All (λ x. IsKnown x.0 t0 s) specs
    → All (IsLively t0 u ops) specs
    → All (λ x. is_overdue (age x.0 u (beats ops s)) x.1 ≡ false) specs
fresh-All u t0 ops [] s known lively = tt
fresh-All u t0 ops (x ∷ specs) s known lively = (
  elim (Bool-cases (leb (u + min_beat_interval) (t0 + x.1))) [
    | inl young ↦
        fresh-IsKnown x.0 u t0 x.1 (beats ops s) (beats-IsKnown x.0 t0 ops s known.0)
          (ground (arith, young))
    | inr older ↦
        let late : beat_lately u x ops ≡ true = ground (arith, older, lively.0) in
        let (v, near, h) = beats-lately u t0 x ops s known.0 late in
        fresh-IsKnown x.0 u v x.1 (beats ops s) h near
  ],
  fresh-All u t0 ops specs s known.1 lively.1,
)

-- The watchdog does not end a process whose loops run: after a start, if each loop has finished an
-- iteration within its threshold, less the one second that a beat may be left out, or the start itself
-- is so recent, and the files can be written, no loop counts as stale.
pub watchdog_spares :
    (specs : Specs) (t0 u : ℕ) (ops : List (String × ℕ)) (s : State)
    → 1000 ≤ t0
    → All (IsLively t0 u ops) specs
    → exits specs u (beats ops (start true t0 specs s)) ≡ false
watchdog_spares specs t0 u ops s late lively = spared specs u (beats ops (start true t0 specs s)) (
    stale-none specs u (beats ops (start true t0 specs s))
      (fresh-All u t0 ops specs (start true t0 specs s) (start-IsKnown t0 specs s late) lively))

-- the file of the loop is not younger than `t`
abbrev pub IsOld : String → ℕ → State → Type 0
IsOld name t s = (m : ℕ) × (get s.files name ≡ some m) × (m ≤ t)

beat-IsOld :
    (name other : String) (t now : ℕ) (s : State)
    → ((other ≡ name) → now ≤ t)
    → IsOld name t s
    → IsOld name t (beat true other now s)
unfolding beat
beat-IsOld name other t now s quiet (m, here, old) =
    elim (Bool-cases (ltb (now - or_else (get s.last other) 0) min_beat_interval)) [
      | inl early ↦ rw early (m, here, old)
      | inr due ↦ rw due (elim (Bool-cases (name == other)) [
        | inl same ↦ (
          now,
          ground (arith, get-put other now s.files name),
          quiet (sym ((eq_iff name other).0 same)),
        )
        | inr differs ↦ (m, ground (arith, get-put other now s.files name), old)
      ])
    ]

beats-IsOld :
    (name : String) (t : ℕ) (ops : List (String × ℕ)) (s : State)
    → All (λ b. b.0 ≡ name → b.1 ≤ t) ops
    → IsOld name t s
    → IsOld name t (beats ops s)
unfolding beats
beats-IsOld name t [] s quiet h = h
beats-IsOld name t ((other, now) ∷ ops) s quiet h =
    beats-IsOld name t ops (beat true other now s) quiet.1 (beat-IsOld name other t now s quiet.0 h)

caught :
    (specs : Specs) (name : String) (u max_age : ℕ) (s : State)
    → get specs name ≡ some max_age
    → is_overdue (age name u s) max_age ≡ true
    → exits specs u s ≡ true
unfolding exits get stale
caught [] name u max_age s found over = absurd (ground arith)
caught ((other, limit) ∷ specs) name u max_age s found over =
    elim (Bool-cases (is_overdue (age other u s) limit)) [
      | inl first ↦ rw (first, exits) refl
      | inr fine ↦ elim (Bool-cases (other == name)) [
        | inl same ↦
            let e = (eq_iff other name).0 same in
            let n : limit ≡ max_age = ground (arith, same, found) in
            let x : is_overdue (age other u s) limit ≡ true = rw (e, n) over in
            absurd (ground (arith, x, fine))
        | inr differs ↦
            rw (fine, exits) (caught specs name u max_age s (ground (arith, differs, found)) over)
      ]
    ]

-- The watchdog ends the process once a loop has not finished an iteration within its threshold, however
-- busy the other loops are.
pub watchdog_catches :
    (specs : Specs) (name : String) (max_age t u : ℕ) (ops : List (String × ℕ)) (s : State)
    → get specs name ≡ some max_age
    → IsOld name t s
    → All (λ b. b.0 ≡ name → b.1 ≤ t) ops
    → t + max_age < u
    → exits specs u (beats ops s) ≡ true
unfolding age
watchdog_catches specs name max_age t u ops s found old quiet late =
    let (m, here, before) = beats-IsOld name t ops s quiet old in
    caught specs name u max_age (beats ops s) found (rw (here, age) (ground arith))
