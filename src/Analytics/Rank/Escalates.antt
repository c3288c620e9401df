-- ===== src/Analytics/Rank/Escalates.antt =====
-- How the class and the score of an address move.
use getarp.Base.{
  ℕ, ◌≤◌, String, ◌==◌, eq_iff, Option, none, some, List, [], ◌∷◌, inl, inr, ap, arith, Bool-cases,
  Option-cases,
}
use getarp.Base.Dict.{Dict, get, get-put}
use getarp.Analytics.Event.{Finding, scan, attack}
use getarp.Analytics.Rank.{
  rank, Standing, escalate, raise_both, raise_score, update_ip, bump, persist_finding,
  persist_profile,
}

-- what the engine writes, in the order it writes it
pub data Write : Type 0 where
  finding : Finding → Write
  profile : String → String → ℕ → Write

unfoldable pub writes : List Write → Dict Standing → Dict Standing
writes [] ips = ips
writes (finding f ∷ ws) ips = writes ws (persist_finding f ips)
writes (profile ip class score ∷ ws) ips = writes ws (persist_profile ip class score ips)

-- the standing of an address has not fallen
abbrev pub Above : Option Standing → Option Standing → Type 0
Above none none = Unit
Above none (some s) = ⊥
Above (some s) none = ⊥
Above (some s) (some t) =
    (rank s.classification ≤ rank t.classification) × (s.threat_score ≤ t.threat_score)

Above-refl : (o : Option Standing) → Above o o
Above-refl none = tt
Above-refl (some s) = (omega arith, omega arith)

Above-trans : (a b c : Option Standing) → Above a b → Above b c → Above a c
Above-trans none none none h k = tt
Above-trans none none (some c) h k = k
Above-trans none (some b) c h k = absurd h
Above-trans (some a) none c h k = absurd h
Above-trans (some a) (some b) none h k = k
Above-trans (some a) (some b) (some c) h k = (omega (arith, h.0, k.0), omega (arith, h.1, k.1))

raise_both-Above : (c : String) (n : ℕ) (s : Standing) → Above (some s) (some (raise_both c n s))
unfolding escalate
raise_both-Above c n s = (ground arith, omega arith)

update_ip-Above :
    (f : Standing → Standing) (ip j : String) (ips : Dict Standing)
    → ((s : Standing) → Above (some s) (some (f s)))
    → Above (get ips j) (get (update_ip f ip ips) j)
unfolding update_ip
update_ip-Above f ip j ips h = elim (Option-cases (get ips ip)) [
  | inl e ↦ rw (e, update_ip) (Above-refl (get ips j))
  | inr (s, e) ↦
      rw (e, update_ip, get-put)
        (elim (Bool-cases (j == ip)) [
          | inl same ↦ rw (same, ap (get ips) ((eq_iff j ip).0 same), e) (h s)
          | inr other ↦ rw other (Above-refl (get ips j))
        ])
]

persist_finding-Above :
    (f : Finding) (j : String) (ips : Dict Standing)
    → Above (get ips j) (get (persist_finding f ips) j)
unfolding persist_finding
persist_finding-Above (scan ip type ports detail) j ips =
    update_ip-Above (raise_both "scanner" 300) ip j ips (raise_both-Above "scanner" 300)
persist_finding-Above (attack ip type service severity detail) j ips =
    update_ip-Above (raise_score (bump type)) ip j ips (λ s. (omega arith, omega arith))

-- Whatever findings and profiles are written and in whatever order, no address loses its row or gains
-- one, its class never falls in the order of severity and its threat score never falls.
pub writes-Above :
    (ws : List Write) (j : String) (ips : Dict Standing) → Above (get ips j) (get (writes ws ips) j)
unfolding writes persist_profile
writes-Above [] j ips = Above-refl (get ips j)
writes-Above (finding f ∷ ws) j ips =
    Above-trans (get ips j) (get (persist_finding f ips) j)
      (get (writes ws (persist_finding f ips)) j) (persist_finding-Above f j ips)
      (writes-Above ws j (persist_finding f ips))
writes-Above (profile ip class score ∷ ws) j ips =
    let ips' = update_ip (raise_both class score) ip ips in
    Above-trans (get ips j) (get ips' j) (get (writes ws ips') j)
      (update_ip-Above (raise_both class score) ip j ips (raise_both-Above class score))
      (writes-Above ws j ips')
