-- ===== src/Heartbeat/Known.antt =====
-- What a beat leaves behind.
use getarp.Base.{
  ℕ, ◌+◌, ◌-◌, ◌≤◌, ◌<◌, String, ◌==◌, eq_iff, Bool, true, false, ◌&&◌, none, some, List, [], ◌∷◌,
  ltb, leb, any, All, or_else, str_refl, ap, ◌≡◌, inl, inr, arith, Bool-cases,
}
use getarp.Base.Dict.{get, remove, get-put, get-remove}
use getarp.Heartbeat.{start, State, min_beat_interval, beat, Specs}

-- iterations of the loops, each with its time, whose files can be written
unfoldable pub beats : List (String × ℕ) → State → State
beats [] s = s
beats ((name, now) ∷ rest) s = beats rest (beat true name now s)

-- what the process remembers of the loop is what is in its file, and `t` is less than a beat interval
-- after it
abbrev pub IsKnown : String → ℕ → State → Type 0
IsKnown name t s =
    (m : ℕ) × (get s.last name ≡ some m) × (get s.files name ≡ some m) × (t < m + min_beat_interval)

-- a beat of any loop keeps what is known
beat-IsKnown :
    (name other : String) (t now : ℕ) (s : State)
    → IsKnown name t s
    → IsKnown name t (beat true other now s)
unfolding beat
beat-IsKnown name other t now s (m, seen, here, near) =
    elim (Bool-cases (ltb (now - or_else (get s.last other) 0) min_beat_interval)) [
      | inl early ↦ rw early (m, seen, here, near)
      | inr due ↦ rw due (elim (Bool-cases (name == other)) [
        | inl same ↦
            let e = (eq_iff name other).0 same in
            (
              now,
              ground (arith, get-put other now s.last name),
              ground (arith, get-put other now s.files name),
              ground (arith, ap (get s.last) e),
            )
        | inr differs ↦ (
          m,
          ground (arith, get-put other now s.last name),
          ground (arith, get-put other now s.files name),
          near,
        )
      ])
    ]

-- a beat of the loop itself is known
beat-new-IsKnown :
    (name : String) (t now : ℕ) (s : State)
    → IsKnown name t s
    → IsKnown name now (beat true name now s)
unfolding beat
beat-new-IsKnown name t now s (m, seen, here, near) =
    elim (Bool-cases (ltb (now - or_else (get s.last name) 0) min_beat_interval)) [
      | inl early ↦ rw early (m, seen, here, ground arith)
      | inr due ↦ rw due (
        now,
        ground (arith, get-put name now s.last name, str_refl name),
        ground (arith, get-put name now s.files name, str_refl name),
        omega arith,
      )
    ]

-- what `start` does for one loop
abbrev seed : ℕ → String → State → State
seed now name s = beat true name now (record s { last = remove s.last name })

-- a first beat is due
due : (now : ℕ) → 1000 ≤ now → ltb (now - 0) min_beat_interval ≡ false
due now late = ground arith

seed-IsKnown :
    (now : ℕ) (name : String) (s : State) → 1000 ≤ now → IsKnown name now (seed now name s)
unfolding beat
seed-IsKnown now name s late =
    let gone : get (remove s.last name) name ≡ none =
      ground (arith, get-remove name s.last name, str_refl name) in
    rw (gone, beat)
      (rw (due now late) (
        now,
        ground (arith, get-put name now (remove s.last name) name, str_refl name),
        ground (arith, get-put name now s.files name, str_refl name),
        omega arith,
      ))

seed-keeps-IsKnown :
    (now : ℕ) (name other : String) (s : State)
    → 1000 ≤ now
    → IsKnown name now s
    → IsKnown name now (seed now other s)
seed-keeps-IsKnown now name other s late (m, seen, here, near) = elim (Bool-cases (name == other)) [
  | inl same ↦ rw ((eq_iff name other).0 same) (seed-IsKnown now other s late)
  | inr differs ↦
      beat-IsKnown name other now now (record s { last = remove s.last other })
        (m, ground (arith, get-remove other s.last name), here, near)
]

start-keeps-IsKnown :
    (now : ℕ) (name : String) (specs : Specs) (s : State)
    → 1000 ≤ now
    → IsKnown name now s
    → IsKnown name now (start true now specs s)
unfolding start
start-keeps-IsKnown now name [] s late h = h
start-keeps-IsKnown now name ((other, max_age) ∷ specs) s late h =
    start-keeps-IsKnown now name specs (seed now other s) late
      (seed-keeps-IsKnown now name other s late h)

-- every loop is known from the start
pub start-IsKnown :
    (now : ℕ) (specs : Specs) (s : State)
    → 1000 ≤ now
    → All (λ x. IsKnown x.0 now (start true now specs s)) specs
unfolding start
start-IsKnown now [] s late = tt
start-IsKnown now ((name, max_age) ∷ specs) s late = (
  start-keeps-IsKnown now name specs (seed now name s) late (seed-IsKnown now name s late),
  start-IsKnown now specs (seed now name s) late,
)

pub beats-IsKnown :
    (name : String) (t : ℕ) (ops : List (String × ℕ)) (s : State)
    → IsKnown name t s
    → IsKnown name t (beats ops s)
unfolding beats
beats-IsKnown name t [] s h = h
beats-IsKnown name t ((other, now) ∷ ops) s h =
    beats-IsKnown name t ops (beat true other now s) (beat-IsKnown name other t now s h)

-- some beat of the loop is less than its threshold, less one interval, before `u`
abbrev pub beat_lately : ℕ → String × ℕ → List (String × ℕ) → Bool
beat_lately u x ops = any (λ b. b.0 == x.0 && leb (u + min_beat_interval) (b.1 + x.1)) ops

pub beats-lately :
    (u t : ℕ) (x : String × ℕ) (ops : List (String × ℕ)) (s : State)
    → IsKnown x.0 t s
    → beat_lately u x ops ≡ true
    → (v : ℕ) × (u + min_beat_interval ≤ v + x.1) × IsKnown x.0 v (beats ops s)
unfolding beats
beats-lately u t x [] s h late = cc
beats-lately u t x ((other, now) ∷ ops) s h late =
    elim (Bool-cases (other == x.0 && leb (u + min_beat_interval) (now + x.1))) [
      | inl here ↦
          let same : other ≡ x.0 = ground (arith, here, eq_iff other x.0) in
          (
            now,
            ground (arith, here),
            beats-IsKnown x.0 now ops (beat true other now s)
                (rw same (beat-new-IsKnown x.0 t now s h)),
          )
      | inr before ↦
          beats-lately u t x ops (beat true other now s) (beat-IsKnown x.0 other t now s h)
            (ground (arith, before))
    ]
