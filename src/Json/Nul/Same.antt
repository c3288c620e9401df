-- ===== src/Json/Nul/Same.antt =====
-- A value that holds no NUL, and no dict of which names a key twice, is left alone by `_strip_nulls`.
use getarp.Base.{String, eq_iff, ◌≡◌, refl, ap, ap₂, sym, ◌∙◌, arith, none}
use getarp.Json.Defs.{
  Value, Items, Fields, null, bool, int, float, str, arr, obj, nil, cons, end, field,
}
use getarp.Json.Access.{put, find, find-put}
use getarp.Json.Nul.{strip_nulls, strip_items, strip_fields}
use getarp.Json.Nul.Clean.{IsStorable, AreStorable, HasStorable, strip_text_clean}

-- no dict in the value names a key twice, as holds of what `json.loads` returns
abbrev mutual
  pub HasKeys : Value → Type 0
  HasKeys null = Unit
  HasKeys (bool b) = Unit
  HasKeys (int n) = Unit
  HasKeys (float n s) = Unit
  HasKeys (str s) = Unit
  HasKeys (arr xs) = ItemsHaveKeys xs
  HasKeys (obj fs) = FieldsHaveKeys fs

  pub ItemsHaveKeys : Items → Type 0
  ItemsHaveKeys nil = Unit
  ItemsHaveKeys (cons x xs) = HasKeys x × ItemsHaveKeys xs

  pub FieldsHaveKeys : Fields → Type 0
  FieldsHaveKeys end = Unit
  FieldsHaveKeys (field k v fs) = (find fs k ≡ none) × HasKeys v × FieldsHaveKeys fs

append_fields : Fields → Fields → Fields
append_fields end gs = gs
append_fields (field k v fs) gs = field k v (append_fields fs gs)

append_fields_assoc :
    (fs gs hs : Fields)
    → append_fields (append_fields fs gs) hs ≡ append_fields fs (append_fields gs hs)
unfolding append_fields
append_fields_assoc end gs hs = refl
append_fields_assoc (field k v fs) gs hs = ap (field k v) (append_fields_assoc fs gs hs)

abbrev Misses : Fields → Fields → Type 0
Misses acc end = Unit
Misses acc (field k v fs) = (find acc k ≡ none) × Misses acc fs

put_new :
    (acc : Fields) (k : String) (v : Value)
    → find acc k ≡ none
    → put acc k v ≡ append_fields acc (field k v end)
unfolding put find append_fields
put_new end k v h = refl
put_new (field j w acc) k v h = ground (arith, put_new acc k v)

Misses-put :
    (acc : Fields) (k : String) (v : Value) (fs : Fields)
    → Misses acc fs
    → find fs k ≡ none
    → Misses (put acc k v) fs
unfolding find
Misses-put acc k v end m h = tt
Misses-put acc k v (field j w fs) m h = (
  ground (arith, find-put acc k j v, eq_iff j k, eq_iff k j),
  Misses-put acc k v fs m.1 (ground arith),
)

append_fields-end : (fs : Fields) → append_fields fs end ≡ fs
unfolding append_fields
append_fields-end end = refl
append_fields-end (field k v fs) = ap (field k v) (append_fields-end fs)

end-Misses : (fs : Fields) → Misses end fs
unfolding find
end-Misses end = tt
end-Misses (field k v fs) = (refl, end-Misses fs)

mutual
  unfolding strip_nulls append_fields

  same_value : (v : Value) → IsStorable v → HasKeys v → strip_nulls v ≡ v
  same_value null h d = refl
  same_value (bool b) h d = refl
  same_value (int n) h d = refl
  same_value (float n s) h d = refl
  same_value (str s) h d = ap str (strip_text_clean s h)
  same_value (arr xs) h d = ap arr (same_items xs h d)
  same_value (obj fs) h d = ap obj (same_fields fs end h d (end-Misses fs))

  same_items : (xs : Items) → AreStorable xs → ItemsHaveKeys xs → strip_items xs ≡ xs
  same_items nil h d = refl
  same_items (cons x xs) h d = ap₂ cons (same_value x h.0 d.0) (same_items xs h.1 d.1)

  same_fields :
      (fs acc : Fields)
      → HasStorable fs
      → FieldsHaveKeys fs
      → Misses acc fs
      → strip_fields fs acc ≡ append_fields acc fs
  same_fields end acc h d m = sym (append_fields-end acc)
  same_fields (field k v fs) acc h d m =
      rw (strip_text_clean k h.0, same_value v h.1 d.1)
        (same_fields fs (put acc k v) h.2 d.2 (Misses-put acc k v fs m.1 d.0)
          ∙ rw (put_new acc k v m.0) (append_fields_assoc acc (field k v end) fs))

-- A value that holds no NUL, and in which no dict names a key twice, is not changed at all.
pub strip_nulls_same : (v : Value) → IsStorable v → HasKeys v → strip_nulls v ≡ v
strip_nulls_same v h d = same_value v h d
