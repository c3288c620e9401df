-- ===== src/Analytics/Dedupe/Quiet.antt =====
-- The silence after a report.
use getarp.Base.{
  ℕ, ◌+◌, ◌≤◌, ◌<◌, String, ◌==◌, eq_iff, str_refl, ◌&&◌, false, not, some, List, [], ◌∷◌, All,
  if◌then◌else◌, ◌≡◌, inl, inr, refl, arith, Bool-cases,
}
use getarp.Base.Dict.{Dict, get, get-put}
use getarp.Analytics.Dedupe.{dup, prune}

-- what may happen: a key is asked about, or the memory is pruned
pub data Op : Type 0 where
  ask : String → ℕ → Op
  pruned : ℕ → Op

abbrev pub time_of : Op → ℕ
time_of (ask k now) = now
time_of (pruned now) = now

-- how often `key` is reported
unfoldable pub reports : ℕ → String → List Op → Dict ℕ → ℕ
reports window key [] d = 0
reports window key (pruned now ∷ ops) d = reports window key ops (prune window now d)
reports window key (ask k now ∷ ops) d =
    let (old, d') = dup window k now d in
    (if k == key && not old then 1 else 0) + reports window key ops d'

prune_keeps :
    (window now t : ℕ) (key : String) (d : Dict ℕ)
    → get d key ≡ some t
    → now < t + window
    → get (prune window now d) key ≡ some t
unfolding prune get
prune_keeps window now t key [] h w = cc
prune_keeps window now t key ((k, u) ∷ d) h w =
    let rest : (k == key) ≡ false → get (prune window now d) key ≡ some t =
      λ q. prune_keeps window now t key d (ground arith) w in
    ground (arith, rest)

ask_quiet :
    (window t : ℕ) (key k : String) (now : ℕ) (d : Dict ℕ)
    → get d key ≡ some t
    → t ≤ now
    → now < t + window
    → ((k == key && not (dup window k now d).0) ≡ false) × (get (dup window k now d).1 key ≡ some t)
unfolding dup
ask_quiet window t key k now d h lo hi = elim (Bool-cases (k == key)) [
  | inl same ↦ rw ((eq_iff k key).0 same, h) (ground (arith, str_refl key))
  | inr other ↦ ground (arith, get-put k now d key, eq_iff key k, eq_iff k key)
]

-- Once a key was reported at a time `t`, it is not reported again before `t + window`, whatever else is
-- reported and however often the memory is pruned in between.
pub reports_quiet :
    (window t : ℕ) (key : String) (ops : List Op) (d : Dict ℕ)
    → get d key ≡ some t
    → All (λ op. (t ≤ time_of op) × (time_of op < t + window)) ops
    → reports window key ops d ≡ 0
unfolding reports
reports_quiet window t key [] d h a = refl
reports_quiet window t key (pruned now ∷ ops) d h a =
    reports_quiet window t key ops (prune window now d) (prune_keeps window now t key d h a.0.1) a.1
reports_quiet window t key (ask k now ∷ ops) d h a =
    let quiet = ask_quiet window t key k now d h a.0.0 a.0.1 in
    rw quiet.0 (omega (arith, reports_quiet window t key ops (dup window k now d).1 quiet.1 a.1))
