-- ===== src/Analytics/Scan/Ports.antt =====
-- What a scan finding says, and when there is one.
use getarp.Base.{
  ℕ, ◌-◌, ◌≤◌, ◌<◌, String, Bool, false, ◌||◌, ◌&&◌, Option, none, some, List, [], ◌∷◌, length, ltb,
  leb, eqb, any, keep, or_else, ◌≡◌, ◌⊎◌, inl, inr, refl, ap, ◌∙◌, arith, Bool-cases, Option-cases,
}
use getarp.Base.Dict.{Dict, get, put}
use getarp.Analytics.Event.{Ev}
use getarp.Analytics.Dedupe.{dup}
use getarp.Analytics.Scan.{
  recent, insert, port_of, add_port, ports_of, services_of, finding_of, on_event,
}

-- ascending, without repetition, all above `lo`
abbrev pub Ascending : ℕ → List ℕ → Type 0
Ascending lo [] = Unit
Ascending lo (n ∷ ns) = (lo < n) × Ascending n ns

-- `n` is one of the numbers
abbrev pub among : ℕ → List ℕ → Bool
among n ns = any (eqb n) ns

insert-Ascending : (lo n : ℕ) (ns : List ℕ) → lo < n → Ascending lo ns → Ascending lo (insert n ns)
unfolding insert
insert-Ascending lo n [] h a = (h, tt)
insert-Ascending lo n (m ∷ ms) h a = elim (Bool-cases (ltb n m)) [
  | inl lt ↦ rw lt (h, (ground arith, a.1))
  | inr ge ↦ elim (Bool-cases (eqb n m)) [
    | inl eq ↦ rw (ge, eq) a
    | inr ne ↦ rw (ge, ne) (a.0, insert-Ascending m n ms (ground arith) a.1)
  ]
]

among-insert : (k n : ℕ) (ns : List ℕ) → among k (insert n ns) ≡ (eqb k n || among k ns)
unfolding insert
among-insert k n [] = refl
among-insert k n (m ∷ ms) = ground (arith, among-insert k n ms)

abbrev names : Option ℕ → ℕ → Bool
names none p = false
names (some n) p = eqb p n

-- the event names the port, which is not 0
abbrev pub names_port : (String → Option ℕ) → ℕ → Ev → Bool
names_port digits p e = names (port_of digits e) p

port_of_positive : (digits : String → Option ℕ) (e : Ev) (n : ℕ) → port_of digits e ≡ some n → 0 < n
port_of_positive digits e n h = ground arith

ports_of-Ascending :
    (digits : String → Option ℕ) (evs : List Ev) → Ascending 0 (ports_of digits evs)
unfolding ports_of
ports_of-Ascending digits [] = tt
ports_of-Ascending digits (e ∷ evs) = elim (Option-cases (port_of digits e)) [
  | inl q ↦ rw q (ports_of-Ascending digits evs)
  | inr (n, q) ↦ rw q (
      insert-Ascending 0 n (ports_of digits evs) (port_of_positive digits e n q)
        (ports_of-Ascending digits evs))
]

among-add_port :
    (p : ℕ) (o : Option ℕ) (ports : List ℕ)
    → among p (add_port o ports) ≡ (names o p || among p ports)
among-add_port p none ports = refl
among-add_port p (some n) ports = among-insert p n ports

among-ports_of :
    (digits : String → Option ℕ) (p : ℕ) (evs : List Ev)
    → among p (ports_of digits evs) ≡ any (names_port digits p) evs
unfolding ports_of
among-ports_of digits p [] = refl
among-ports_of digits p (e ∷ evs) =
    among-add_port p (port_of digits e) (ports_of digits evs)
    ∙ ap (λ b. names_port digits p e || b) (among-ports_of digits p evs)

any-keep :
    {A : Type 0} (q p : A → Bool) (xs : List A) → any p (keep q xs) ≡ any (λ x. q x && p x) xs
any-keep q p [] = refl
any-keep q p (x ∷ xs) = ground (arith, any-keep q p xs)

-- a finding about exactly these ports, at least `threshold` of them: in ascending order, each once,
-- the ports that the events of the last `window_s` name
pub record Scanned (digits : String → Option ℕ) (threshold window_s now : ℕ) (window : List Ev)
    (ports : List ℕ) : Type 0 where
  pub many : threshold ≤ length ports
  pub ascending : Ascending 0 ports
  pub exact :
      (p : ℕ)
      → among p ports ≡ any (λ e. leb (now - e.recv) window_s && names_port digits p e) window

recent-exact :
    (digits : String → Option ℕ) (window_s now p : ℕ) (window : List Ev)
    → among p (ports_of digits (recent window_s now window))
      ≡ any (λ e. leb (now - e.recv) window_s && names_port digits p e) window
unfolding recent
recent-exact digits window_s now p window =
    among-ports_of digits p (recent window_s now window)
    ∙ any-keep (λ e. leb (now - e.recv) window_s) (names_port digits p) window

-- An event leads to at most one finding. There is none where fewer than `threshold` ports were hit in
-- the window or the source was reported within it, and then the reports are as they were; otherwise the
-- finding names, in ascending order and each once, exactly the ports other than 0 that the events of the
-- window name, and the source counts as reported now.
pub on_event-Scanned :
    (digits : String → Option ℕ) (threshold window_s : ℕ) (ip : String) (now : ℕ) (window : List Ev)
    (reported : Dict ℕ)
    → let r = on_event digits threshold window_s ip now window reported in
      let ports = ports_of digits (recent window_s now window) in
      ((r.0 ≡ [])
        × (r.1 ≡ reported)
        × ((length ports < threshold) ⊎ (now - or_else (get reported ip) 0 < window_s)))
      ⊎ ((r.0 ≡ finding_of window_s ip ports (services_of (recent window_s now window)) ∷ [])
          × (r.1 ≡ put reported ip now)
          × (window_s ≤ now - or_else (get reported ip) 0)
          × Scanned digits threshold window_s now window ports)
unfolding on_event dup
on_event-Scanned digits threshold window_s ip now window reported =
    let evs = recent window_s now window in
    let ports = ports_of digits evs in
    elim (Bool-cases (ltb (length ports) threshold)) [
      | inl few ↦ rw few (inl (refl, refl, inl (ground arith)))
      | inr many ↦ elim (Bool-cases (ltb (now - or_else (get reported ip) 0) window_s)) [
        | inl again ↦ rw (many, again) (inl (refl, refl, inr (ground arith)))
        | inr first ↦
            rw (many, first)
              (inr (
                refl,
                refl,
                ground arith,
                record {
                  many = ground arith;
                  ascending = ports_of-Ascending digits evs;
                  exact = λ p. recent-exact digits window_s now p window;
                },
              ))
      ]
    ]
