-- ===== src/Json/Nul.antt =====
-- `_strip_nulls` of pipeline/ingestor.py; enrichment/base.py has the same function.
pub mod Clean
pub mod Same
use Prim.Native.Char.{Char, code}
use getarp.Base.{String, has_char, replace_char, if◌then◌else◌}
use getarp.Json.Defs.{
  Value, Items, Fields, null, bool, int, float, str, arr, obj, nil, cons, end, field,
}
use getarp.Json.Access.{put}

-- U+FFFD
abbrev pub nul_replacement : String
nul_replacement = "�"

-- the `str` branch
unfoldable pub strip_text : String → String
unfolding has_char replace_char
strip_text s = if has_char 0 s then replace_char 0 nul_replacement s else s

-- The dict comprehension builds a new dict: where two keys become one, the later value stays.
unfoldable mutual
  pub strip_nulls : Value → Value
  strip_nulls null = null
  strip_nulls (bool b) = bool b
  strip_nulls (int n) = int n
  strip_nulls (float n s) = float n s
  strip_nulls (str s) = str (strip_text s)
  strip_nulls (arr xs) = arr (strip_items xs)
  strip_nulls (obj fs) = obj (strip_fields fs end)

  pub strip_items : Items → Items
  strip_items nil = nil
  strip_items (cons x xs) = cons (strip_nulls x) (strip_items xs)

  pub strip_fields : Fields → Fields → Fields
  strip_fields end acc = acc
  strip_fields (field k v fs) acc = strip_fields fs (put acc (strip_text k) (strip_nulls v))
