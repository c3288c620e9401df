-- ===== src/Json/Access.antt =====
-- Reading and writing the keys of a dict of JSON values, and Python's truth value.
use getarp.Base.Int.{pos}
use getarp.Base.{
  zero, String, ◌==◌, eq_iff, Bool, true, false, Option, none, some, ◌≡◌, refl, arith,
  if◌then◌else◌,
}
use getarp.Json.Defs.{Value, Fields, null, bool, int, float, str, arr, obj, nil, end, field}

-- `d.get(k)` with a missing key told from a `null`
unfoldable pub find : Fields → String → Option Value
find end k = none
find (field j v fs) k = if j == k then some v else find fs k

-- `d.get(k, default)`
abbrev pub or_default : Option Value → Value → Value
or_default none d = d
or_default (some v) d = v

-- `d.get(k)`
abbrev pub get : Fields → String → Value
get fs k = or_default (find fs k) null

-- `d[k] = v`: a known key keeps its place
unfoldable pub put : Fields → String → Value → Fields
put end k v = field k v end
put (field j w fs) k v = if j == k then field j v fs else field j w (put fs k v)

-- `bool(v)`
abbrev pub truthy : Value → Bool
truthy null = false
truthy (bool b) = b
truthy (int (pos zero)) = false
truthy (int n) = true
truthy (float (some (pos zero)) s) = false
truthy (float n s) = true
truthy (str String.[]) = false
truthy (str s) = true
truthy (arr nil) = false
truthy (arr xs) = true
truthy (obj end) = false
truthy (obj fs) = true

-- `a or b`
abbrev pub or_value : Value → Value → Value
or_value a b = if truthy a then a else b

-- `v == s` for a text `s`
abbrev pub is_text : Value → String → Bool
is_text (str t) s = t == s
is_text v s = false

pub find-put :
    (fs : Fields) (k j : String) (v : Value)
    → find (put fs k v) j ≡ (if k == j then some v else find fs j)
unfolding find put
find-put end k j v = refl
find-put (field i w fs) k j v =
    ground (arith, eq_iff k j, eq_iff i k, eq_iff i j, find-put fs k j v)
