-- ===== src/Base/Dict.antt =====
-- Python's `dict` with text keys, in insertion order: a write to a known key keeps its place.
use getarp.Base.Tests.{if◌then◌else◌, is_some}
use getarp.Base.Lists.{length}
use Prim.Native.Nat.{suc, ◌+◌, ◌≤◌}
use Prim.Native.String.{String}
use mathlib.Core.Path.{◌≡◌, refl}
use mathlib.Core.Bool.{Bool, true}
use mathlib.Core.Option.{Option, none, some}
use mathlib.Core.List.{List, [], ◌∷◌}
use native.Mathlib.Omega.{arith}
use text.Mathlib.Text.{◌==◌}
use text.Mathlib.TextEquality.{eq_iff}

abbrev pub Dict {ℓ} : Type ℓ → Type ℓ
Dict V = List (String × V)

module _ {ℓ} {V : Type ℓ} where
  -- `d.get(k)`
  unfoldable pub get : Dict V → String → Option V
  get [] k = none
  get ((j, v) ∷ d) k = if j == k then some v else get d k

  -- `d[k] = v`
  unfoldable pub put : Dict V → String → V → Dict V
  put [] k v = (k, v) ∷ []
  put ((j, w) ∷ d) k v = if j == k then (j, v) ∷ d else (j, w) ∷ put d k v

  -- `del d[k]` of a key that is there, `d.pop(k, None)`
  unfoldable pub remove : Dict V → String → Dict V
  remove [] k = []
  remove ((j, w) ∷ d) k = let rest = remove d k in if j == k then rest else (j, w) ∷ rest

  -- `k in d`
  abbrev pub has : Dict V → String → Bool
  has d k = is_some (get d k)

  -- a write is read back at its key, and nowhere else
  pub get-put :
      (k : String) (v : V) (d : Dict V) (j : String)
      → get (put d k v) j ≡ (if j == k then some v else get d j)
  unfolding get put
  get-put k v [] j = ground (arith, eq_iff k j, eq_iff j k)
  get-put k v ((i, w) ∷ d) j =
      ground (arith, eq_iff k j, eq_iff j k, eq_iff i k, eq_iff i j, get-put k v d j)

  -- a key that was deleted is gone, and only it
  pub get-remove :
      (k : String) (d : Dict V) (j : String)
      → get (remove d k) j ≡ (if j == k then none else get d j)
  unfolding get remove
  get-remove k [] j = ground arith
  get-remove k ((i, w) ∷ d) j =
      ground (arith, eq_iff k j, eq_iff j k, eq_iff i k, eq_iff i j, get-remove k d j)

  pub length-put :
      (d : Dict V) (k : String) (v : V)
      → length (put d k v) ≡ (if has d k then length d else suc (length d))
  unfolding get put
  length-put [] k v = refl
  length-put ((i, w) ∷ d) k v = ground (arith, length-put d k v)

  pub length-remove-le : (d : Dict V) (k : String) → length (remove d k) ≤ length d
  unfolding remove
  length-remove-le [] k = ground arith
  length-remove-le ((i, w) ∷ d) k = ground (arith, length-remove-le d k)

  pub length-remove-lt :
      (d : Dict V) (k : String) → has d k ≡ true → length (remove d k) + 1 ≤ length d
  unfolding get remove
  length-remove-lt [] k h = absurd (ground arith)
  length-remove-lt ((i, w) ∷ d) k h = ground (arith, length-remove-lt d k, length-remove-le d k)
