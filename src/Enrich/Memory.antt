-- ===== src/Enrich/Memory.antt =====
-- The cache that each provider of enrichment/providers.py keeps: answers and their times, bounded in
-- number. The classes have a copy of `_cache_put` each.
pub mod Bounded
use getarp.Base.{
  ℕ, ◌-◌, String, ◌==◌, Bool, true, false, Option, none, some, List, [], ◌∷◌, ltb, leb, length,
  or_else, if◌then◌else◌,
}
use getarp.Base.Dict.{Dict, get, put, remove}
use getarp.Enrich.Record.{Enrichment}

pub record Memory : Type 0 where
  pub cache : Dict Enrichment
  pub cache_ts : Dict ℕ

abbrev pub max_cache : ℕ
max_cache = 10000

-- `min(self._cache_ts, key=self._cache_ts.get)`: of the oldest, the first
unfoldable pub oldest : String → ℕ → Dict ℕ → String
oldest k t [] = k
oldest k t ((j, u) ∷ d) = if ltb u t then oldest j u d else oldest k t d

-- the key that `_cache_put` deletes
unfoldable pub old_key : ℕ → Dict Enrichment → Dict ℕ → Option String
old_key max cache [] = none
old_key max cache ((k, t) ∷ d) = if leb max (length cache) then some (oldest k t d) else none

abbrev pub without {ℓ} : {V : Type ℓ} → Option String → Dict V → Dict V
without none d = d
without (some k) d = remove d k

-- `_cache_put`
unfoldable pub cache_put : ℕ → String → Enrichment → ℕ → Memory → Memory
cache_put max ip e now m =
    let old = old_key max m.cache m.cache_ts in
    record {
      cache = put (without old m.cache) ip e;
      cache_ts = put (without old m.cache_ts) ip now;
    }

-- a cached answer that is still good
unfoldable pub cached : ℕ → String → ℕ → Memory → Option Enrichment
cached ttl ip now m = elim (get m.cache ip) [
  | none ↦ none
  | some e ↦ if ltb (now - or_else (get m.cache_ts ip) 0) ttl then some e else none
]
