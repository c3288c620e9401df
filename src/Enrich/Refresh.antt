-- ===== src/Enrich/Refresh.antt =====
-- `refresh_loop` of enrichment/worker.py: which addresses are queued again.
pub mod Queues
use getarp.Base.{
  ℕ, zero, suc, ◌+◌, ◌-◌, String, ◌==◌, Bool, true, false, ◌&&◌, ◌||◌, Option, none, some, List, [],
  ◌∷◌, ◌++◌, map, keep, take, ltb, if◌then◌else◌,
}
use getarp.Enrich.Worker.{Message}

-- a row of `ip_enrichment`, with the length of `raw->'tiered'->'tier2_deferred'`
pub record Verdict : Type 0 where
  pub updated_at : ℕ
  pub reputation : String
  pub deferred : ℕ

-- a row of `ips`, joined with it
pub record Candidate : Type 0 where
  pub ip : String
  pub last_seen : ℕ
  pub verdict : Option Verdict

-- REFRESH_STALE, REFRESH_RETRY and REFRESH_BATCH, the times in seconds
pub record Intervals : Type 0 where
  pub stale : ℕ
  pub retry : ℕ
  pub batch : ℕ

-- the WHERE, of an address that has a row
abbrev pub is_due_again : Intervals → ℕ → ℕ → Verdict → Bool
is_due_again c now last_seen v =
    (ltb now (last_seen + 86400) && ltb (v.updated_at + c.stale) now)
    || (v.reputation == "unknown" && ltb 0 v.deferred && ltb (v.updated_at + c.retry) now)

-- the WHERE
unfoldable pub is_due : Intervals → ℕ → Candidate → Bool
is_due c now i = elim i.verdict [ none ↦ true | some v ↦ is_due_again c now i.last_seen v ]

-- `updated_at ASC NULLS FIRST`
abbrev pub comes_first : Option Verdict → Option Verdict → Bool
comes_first none w = true
comes_first (some v) none = false
comes_first (some v) (some w) = ltb v.updated_at (suc w.updated_at)

unfoldable pub insert : Candidate → List Candidate → List Candidate
insert i [] = i ∷ []
insert i (j ∷ js) =
    let rest = insert i js in if comes_first i.verdict j.verdict then i ∷ j ∷ js else j ∷ rest

unfoldable pub sort : List Candidate → List Candidate
sort [] = []
sort (i ∷ is) = insert i (sort is)

-- the query
unfoldable pub select : Intervals → ℕ → List Candidate → List Candidate
select c now ips = take c.batch (sort (keep (is_due c now) ips))

abbrev pub forced : Candidate → Message
forced i = record { src_ip = some i.ip; force = some "1"; attempt = none }

-- One round of the loop, where the query succeeds and the first `sent` XADDs: what the stream has then.
unfoldable pub refresh : Intervals → ℕ → ℕ → List Candidate → List Message → List Message
refresh c now sent ips queue = queue ++ map forced (take sent (select c now ips))
