-- ===== src/Enrich/Tiered/Gate.antt =====
-- When Tier 2 is asked, and what the verdict of Tier 1 is worth.
use getarp.Base.{
  ◌≤◌, ◌<◌, max, String, true, false, ◌&&◌, List, [], ◌∷◌, ◌++◌, leb, ◌≡◌, ◌⊎◌, refl, sym, arith,
  leb→le, ◌∙◌,
}
use getarp.Enrich.Record.{Answer, fetched, failed, severity}
use getarp.Enrich.Merge.Described.{worst}
use getarp.Enrich.Merge.Worst.{merge_enrichments-Merged}
use getarp.Enrich.Tiered.{
  Gates, Activity, Lookup, feed_answers, is_flagged, inconclusive, is_active, is_high, tier2,
  enrich,
}

worst-append : (xs ys : List (String × Answer)) → worst (xs ++ ys) ≡ max (worst xs) (worst ys)
worst-append [] ys = omega arith
worst-append ((n, fetched r) ∷ xs) ys = omega (arith, worst-append xs ys)
worst-append ((n, failed ex) ∷ xs) ys = worst-append xs ys

flagged-worst : (rs : List (String × Answer)) → is_flagged rs ≡ leb 2 (worst rs)
unfolding is_flagged
flagged-worst [] = refl
flagged-worst ((n, fetched r) ∷ rs) = ground (arith, flagged-worst rs)
flagged-worst ((n, failed ex) ∷ rs) = flagged-worst rs

-- below both activity thresholds nothing of Tier 2 is asked
idle_gate :
    (g : Gates) (a : Activity) (gn : Answer) (paid : List (String × Answer))
    → a.events < g.min_events
    → a.score < g.min_score
    → tier2 g a gn paid ≡ []
unfolding tier2 is_active
idle_gate g a gn paid h k = ground arith

-- an address that is not high, or that GreyNoise settled, is not taken to the paid providers
settled_gate :
    (g : Gates) (a : Activity) (gn : Answer) (paid paid' : List (String × Answer))
    → (is_high g a && inconclusive gn) ≡ false
    → tier2 g a gn paid ≡ tier2 g a gn paid'
unfolding tier2
settled_gate g a gn paid paid' h = rw h refl

-- For an address below both activity thresholds nothing of Tier 2 matters: the result is the one that
-- the local feeds give, whatever Tier 2 would have said.
pub enrich_idle :
    (g : Gates) (ip : String) (feeds : List Lookup) (a : Activity) (gn gn' : Answer)
    (paid paid' : List (String × Answer))
    → a.events < g.min_events
    → a.score < g.min_score
    → enrich g ip feeds a gn paid ≡ enrich g ip feeds a gn' paid'
unfolding enrich
enrich_idle g ip feeds a gn gn' paid paid' h k =
    rw (idle_gate g a gn paid h k, idle_gate g a gn' paid' h k) refl

-- Where the score is not high, or GreyNoise gave a verdict, the paid providers do not matter: the
-- result is the same whatever they would have said.
pub enrich_settled :
    (g : Gates) (ip : String) (feeds : List Lookup) (a : Activity) (gn : Answer)
    (paid paid' : List (String × Answer))
    → (a.score < g.high_score) ⊎ (inconclusive gn ≡ false)
    → enrich g ip feeds a gn paid ≡ enrich g ip feeds a gn paid'
unfolding enrich is_high
enrich_settled g ip feeds a gn paid paid' h =
    rw (settled_gate g a gn paid paid' (ground arith)) refl

-- Tier 2 can only add to what the feeds say: where a feed flags the address, the verdict is at least
-- suspicious, whatever the other providers answer.
pub enrich_flagged :
    (g : Gates) (ip : String) (feeds : List Lookup) (a : Activity) (gn : Answer)
    (paid : List (String × Answer))
    → is_flagged (feed_answers feeds) ≡ true
    → 2 ≤ severity (enrich g ip feeds a gn paid).reputation
unfolding enrich
enrich_flagged g ip feeds a gn paid h =
    let tier1 = feed_answers feeds in
    let asked = tier2 g a gn paid in
    let m = merge_enrichments-Merged ip "tiered" (tier1 ++ asked) in
    let big = leb→le 2 (worst tier1) (sym (flagged-worst tier1) ∙ h) in
    omega (arith, m.reputation, worst-append tier1 asked, big)
