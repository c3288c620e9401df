-- ===== src/Analytics/Evict.antt =====
-- `_evict_windows` and `_evict_profiles` of analytics/engine.py: the coldest tenth goes.
pub mod Shrinks
use getarp.Base.{ℕ, ◌/◌, max, String, Bool, List, [], ◌∷◌, take, map, ltb, if◌then◌else◌}
use getarp.Base.Dict.{Dict, remove}

module _ {V : Type 0} (age : V → ℕ) where
  -- an entry before the first one that is younger, so after those of its own age
  unfoldable pub insert_by_age : String × V → Dict V → Dict V
  insert_by_age e [] = e ∷ []
  insert_by_age e (f ∷ fs) =
      let rest = insert_by_age e fs in if ltb (age f.1) (age e.1) then f ∷ rest else e ∷ f ∷ fs

  -- `sorted(d.items(), key=...)`: entries of the same age keep their order
  unfoldable pub sort_by_age : Dict V → Dict V
  sort_by_age [] = []
  sort_by_age (e ∷ d) = insert_by_age e (sort_by_age d)

-- `for ip, _ in ...: del d[ip]`
unfoldable pub remove_all {ℓ} : {V : Type ℓ} → List String → Dict V → Dict V
remove_all [] d = d
remove_all (k ∷ ks) d = remove_all ks (remove d k)

-- the keys of the coldest tenth, one at least
unfoldable pub coldest : {V : Type 0} → (V → ℕ) → ℕ → Dict V → List String
coldest age cap d = map (λ e. e.0) (take (max 1 (cap / 10)) (sort_by_age age d))

unfoldable pub evict : {V : Type 0} → (V → ℕ) → ℕ → Dict V → Dict V
evict age cap d = remove_all (coldest age cap d) d
