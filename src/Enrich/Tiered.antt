-- ===== src/Enrich/Tiered.antt =====
-- `TieredProvider.enrich` of enrichment/providers.py. What the feeds, GreyNoise and the paid providers
-- answer, and the activity of the address, are given; the result says which Tier-2 providers were asked.
pub mod Gate
use getarp.Base.{
  ℕ, String, ◌==◌, Bool, true, false, ◌&&◌, ◌||◌, not, Option, none, some, List, [], ◌∷◌, ◌++◌, leb,
  map, if◌then◌else◌,
}
use getarp.Base.Int.{pos}
use getarp.Json.{
  Value, Items, Fields, null, bool, int, float, str, arr, obj, nil, cons, end, field, get, truthy,
}
use getarp.Enrich.Record.{Enrichment, Answer, fetched, failed, severity}
use getarp.Enrich.Merge.{has_text, raw_put, merge_enrichments}

-- the thresholds that the settings give
pub record Gates : Type 0 where
  pub min_events : ℕ
  pub min_score : ℕ
  pub high_score : ℕ

-- what `_activity` read
pub record Activity : Type 0 where
  pub events : ℕ
  pub score : ℕ

-- what a feed's `lookup` returned; `none` is no hit
abbrev pub Lookup : Type 0
Lookup = String × Option Answer

-- the loop over the feeds
unfoldable pub feed_answers : List Lookup → List (String × Answer)
feed_answers [] = []
feed_answers ((n, none) ∷ fs) = feed_answers fs
feed_answers ((n, some a) ∷ fs) = (n, a) ∷ feed_answers fs

-- `flagged`
unfoldable pub is_flagged : List (String × Answer) → Bool
is_flagged [] = false
is_flagged ((n, fetched r) ∷ rs) = leb 2 (severity r.reputation) || is_flagged rs
is_flagged ((n, failed ex) ∷ rs) = is_flagged rs

-- `geo_source`
unfoldable pub geo_source : List (String × Answer) → String
geo_source [] = "none"
geo_source ((n, fetched r) ∷ rs) = if has_text r.country || has_text r.asn then n else geo_source rs
geo_source ((n, failed ex) ∷ rs) = geo_source rs

abbrev is_stub : Value → Bool
is_stub v = elim v [
  | obj fs ↦ truthy (get fs "rate_limited") || truthy (get fs "quota_exhausted")
  | _ ↦ false
]

-- `_deferred`: a stub, for which no quota was spent
unfoldable pub deferred : Answer → Bool
deferred (fetched r) = is_stub r.raw
deferred (failed ex) = false

-- `inconclusive`
unfoldable pub inconclusive : Answer → Bool
inconclusive (fetched r) = r.reputation == "unknown"
inconclusive (failed ex) = true

unfoldable pub is_active : Gates → Activity → Bool
is_active g a = leb g.min_events a.events || leb g.min_score a.score

unfoldable pub is_high : Gates → Activity → Bool
is_high g a = leb g.high_score a.score

-- the Tier-2 providers that are asked, with their answers, in order
unfoldable pub tier2 : Gates → Activity → Answer → List (String × Answer) → List (String × Answer)
tier2 g a gn paid =
    if is_active g a
    then ("greynoise", gn) ∷ (if is_high g a && inconclusive gn then paid else [])
    else []

-- `ran` and `deferred`
unfoldable pub names_where : (Answer → Bool) → List (String × Answer) → List String
names_where p [] = []
names_where p ((n, r) ∷ rs) = let rest = names_where p rs in if p r then n ∷ rest else rest

abbrev texts : List String → Items
texts [] = nil
texts (s ∷ ss) = cons (str s) (texts ss)

-- `merged.raw["tiered"]`
abbrev report : Gates → Activity → List (String × Answer) → List (String × Answer) → Value
report g a tier1 asked = obj (
    field "event_count" (int (pos a.events)) (
      field "threat_score" (int (pos a.score)) (
        field "tier1_flagged" (bool (is_flagged tier1)) (
          field "tier2_ran" (arr (texts (names_where (λ r. not (deferred r)) asked))) (
            field "tier2_deferred" (arr (texts (names_where deferred asked))) (
              field "tier2_reason" (str (if is_active g a then "active" else "below-threshold"))
                (field "geo_source" (str (geo_source tier1)) end)))))))

-- `enrich`
unfoldable pub enrich :
    Gates → String → List Lookup → Activity → Answer → List (String × Answer) → Enrichment
enrich g ip feeds a gn paid =
    let tier1 = feed_answers feeds in
    let asked = tier2 g a gn paid in
    let merged = merge_enrichments ip "tiered" (tier1 ++ asked) in
    record merged { raw = raw_put merged.raw "tiered" (report g a tier1 asked) }
