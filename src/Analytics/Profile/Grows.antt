-- ===== src/Analytics/Profile/Grows.antt =====
-- How an event moves the score and the class of a profile.
use getarp.Base.{
  ℕ, ◌≤◌, String, ◌==◌, Bool, true, false, ◌||◌, not, List, [], ◌∷◌, length, length-append, leb,
  elem, elem-append, text_take, if◌then◌else◌, ◌≡◌, inl, inr, refl, ap, ◌∙◌, arith, Bool-cases,
}
use getarp.Analytics.Event.{Ev}
use getarp.Analytics.Rank.{rank}
use getarp.Analytics.Profile.{
  Profile, add, add_command, on_login, on_command, on_any, found, spot, spot_if, update, score,
  classify, tool_names, is_login, is_command,
}

-- nothing that the score or the class reads is less
pub record Grown (p q : Profile) : Type 0 where
  pub services : length p.services ≤ length q.services
  pub commands : length p.commands_seen ≤ length q.commands_seen
  pub hints : length p.tooling_hints ≤ length q.tooling_hints
  pub logins : p.login_attempts ≤ q.login_attempts
  pub kept : (s : String) → elem s p.tooling_hints ≡ true → elem s q.tooling_hints ≡ true

Grown-refl : (p : Profile) → Grown p p
Grown-refl p = record {
  services = omega arith;
  commands = omega arith;
  hints = omega arith;
  logins = omega arith;
  kept = λ s h. h;
}

Grown-trans : (p q r : Profile) → Grown p q → Grown q r → Grown p r
Grown-trans p q r g h = record {
  services = omega (arith, g.services, h.services);
  commands = omega (arith, g.commands, h.commands);
  hints = omega (arith, g.hints, h.hints);
  logins = omega (arith, g.logins, h.logins);
  kept = λ s k. h.kept s (g.kept s k);
}

length-add : (s : String) (set : List String) → length set ≤ length (add s set)
unfolding add
length-add s set = ground (arith, length-append {0} set (s ∷ []))

elem-add : (t s : String) (set : List String) → elem t set ≡ true → elem t (add s set) ≡ true
unfolding add
elem-add t s set h = ground (arith, elem-append t set (s ∷ []))

length-add_command : (s : String) (seen : List String) → length seen ≤ length (add_command s seen)
unfolding add_command
length-add_command s seen = ground (arith, length-append {0} seen (text_take 300 s ∷ []))

on_any-Grown : (now : ℕ) (e : Ev) (p : Profile) → Grown p (on_any now e p)
on_any-Grown now e p = record {
  services = ground (arith, length-add e.service p.services);
  commands = omega arith;
  hints = omega arith;
  logins = omega arith;
  kept = λ s h. h;
}

on_login-Grown : (e : Ev) (p : Profile) → Grown p (on_login e p)
unfolding on_login
on_login-Grown e p = elim (Bool-cases (is_login e)) [
  | inl l ↦ rw l (record {
    services = omega arith;
    commands = omega arith;
    hints = omega arith;
    logins = omega arith;
    kept = λ s h. h;
  })
  | inr l ↦ rw l (Grown-refl p)
]

on_command-Grown : (e : Ev) (p : Profile) → Grown p (on_command e p)
on_command-Grown e p = record {
  services = omega arith;
  commands = ground (arith, length-add_command e.command p.commands_seen);
  hints = omega arith;
  logins = omega arith;
  kept = λ s h. h;
}

found-Grown : (name : String) (p : Profile) → Grown p (found name p)
found-Grown name p = record {
  services = omega arith;
  commands = omega arith;
  hints = length-add name p.tooling_hints;
  logins = omega arith;
  kept = λ s h. elem-add s name p.tooling_hints h;
}

spot-Grown :
    (signs : String → String → Bool) (text : String) (names : List String) (p : Profile)
    → Grown p (spot signs text names p)
unfolding spot
spot-Grown signs text [] p = Grown-refl p
spot-Grown signs text (name ∷ names) p = elim (Bool-cases (signs name text)) [
  | inl hit ↦ rw hit (
      Grown-trans p (found name p) (spot signs text names (found name p)) (found-Grown name p)
        (spot-Grown signs text names (found name p)))
  | inr miss ↦ rw miss (spot-Grown signs text names p)
]

spot_if-Grown :
    (signs : String → String → Bool) (b : Bool) (text : String) (p : Profile)
    → Grown p (spot_if signs b text p)
spot_if-Grown signs true text p = spot-Grown signs text tool_names p
spot_if-Grown signs false text p = Grown-refl p

update-Grown :
    (signs : String → String → Bool) (now : ℕ) (e : Ev) (p : Profile)
    → Grown p (update signs now e p)
unfolding update
update-Grown signs now e p =
    let a = on_any now e p in
    let b = on_login e a in
    let c = on_command e b in
    let d = spot_if signs (is_command e) e.command c in
    Grown-trans p a _ (on_any-Grown now e p) (
      Grown-trans a b _ (on_login-Grown e a) (
        Grown-trans b c _ (on_command-Grown e b) (
          Grown-trans c d _ (spot_if-Grown signs (is_command e) e.command c)
            (spot_if-Grown signs (not (e.signature == "")) e.signature d))))

score-Grown : (p q : Profile) → Grown p q → score p ≤ score q
unfolding score
score-Grown p q g = ground (arith, g.services, g.commands, g.hints, g.logins, g.kept "mirai")

rank_if : (b : Bool) (c d : String) → rank (if b then c else d) ≡ (if b then rank c else rank d)
rank_if true c d = refl
rank_if false c d = refl

-- the rank of the class as a number
abbrev level : Profile → ℕ
level p =
    if elem "mirai" p.tooling_hints || elem "cryptominer" p.tooling_hints
    then 6
    else if leb 1 (length p.commands_seen)
    then 5
    else if elem "hydra" p.tooling_hints || leb 5 p.login_attempts
    then 4
    else if leb 3 (length p.services)
    then 3
    else 2

rank-classify : (p : Profile) → rank (classify p) ≡ level p
unfolding classify rank
rank-classify p =
    let bad = elem "mirai" p.tooling_hints || elem "cryptominer" p.tooling_hints in
    let ran = leb 1 (length p.commands_seen) in
    let brute = elem "hydra" p.tooling_hints || leb 5 p.login_attempts in
    rank_if bad "exploiter" _
    ∙ ap (λ n. if bad then 6 else n)
        (rank_if ran "intruder" _
          ∙ ap (λ n. if ran then 5 else n)
              (rank_if brute "bruteforcer" _
                ∙ ap (λ n. if brute then 4 else n)
                    (rank_if (leb 3 (length p.services)) "scanner" "prober")))

level-Grown : (p q : Profile) → Grown p q → level p ≤ level q
level-Grown p q g =
    ground (
      arith,
      g.services,
      g.commands,
      g.logins,
      g.kept "mirai",
      g.kept "cryptominer",
      g.kept "hydra",
    )

rank-Grown : (p q : Profile) → Grown p q → rank (classify p) ≤ rank (classify q)
rank-Grown p q g = omega (arith, rank-classify p, rank-classify q, level-Grown p q g)

score_bound : (p : Profile) → score p ≤ 1000
unfolding score
score_bound p = omega arith

-- An event never lowers the score of a profile, which stays at most 100.0, and never takes its
-- class down in the order of severity, whatever the expressions match.
pub update_raises :
    (signs : String → String → Bool) (now : ℕ) (e : Ev) (p : Profile)
    → (score p ≤ score (update signs now e p))
      × (score (update signs now e p) ≤ 1000)
      × (rank (classify p) ≤ rank (classify (update signs now e p)))
update_raises signs now e p =
    let q = update signs now e p in
    let g = update-Grown signs now e p in (score-Grown p q g, score_bound q, rank-Grown p q g)
