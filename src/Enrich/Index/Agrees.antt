-- ===== src/Enrich/Index/Agrees.antt =====
-- The index in memory and the rows in the database.
use getarp.Base.Exec.{Result, ok, raise}
use getarp.Base.{ℕ, String, List, ◌≡◌, ◌⊎◌, inl, inr, refl, ap}
use getarp.Retry.{Ex}
use getarp.Enrich.Feeds.{FeedRow, Codec, Faults}
use getarp.Enrich.Feeds.Replaces.{Fails, replaced, store_atomic}
use getarp.Enrich.Index.{Feed, stored, replace}

-- why a refresh changed nothing: the download raised, or a call to Postgres did
abbrev pub Failed : {I : Type 0} → Result String I → Faults → Type 0
Failed download faults = ((ex : String) × (download ≡ raise ex)) ⊎ ((ex : Ex) × Fails faults ex)

-- the index and the table of a refresh that succeeds
abbrev pub fresh : {I : Type 0} → Codec → String → (I → List FeedRow) → I → Feed I → Feed I
fresh c source rows new f = record { index = new; table = replaced c source (rows new) f.table }

-- A refresh ends in one of two ways: the download or a call to Postgres failed, and the index and the
-- table are what they were; or the index is what was downloaded and the table has the rows of it, and
-- no other row of that source. So the feed in memory and its copy in the database never part.
pub replace_agrees :
    {I : Type 0} (c : Codec) (chunk : ℕ) (faults : Faults) (source : String)
    (rows : I → List FeedRow) (download : Result String I) (f : Feed I)
    → let f' = replace c chunk faults source rows download f in
      ((f' ≡ f) × Failed download faults)
      ⊎ ((new : I) × (download ≡ ok new) × (f' ≡ fresh c source rows new f))
unfolding replace
replace_agrees c chunk faults source rows (raise ex) f = inl (refl, inl (ex, refl))
replace_agrees c chunk faults source rows (ok new) f =
    elim (store_atomic c chunk faults source (rows new) f.table) [
      | inl (ex, e, why) ↦ inl (ap (stored new f) e, inr (ex, why))
      | inr e ↦ inr (new, refl, ap (stored new f) e)
    ]
