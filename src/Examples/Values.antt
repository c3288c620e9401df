-- ===== src/Examples/Values.antt =====
-- Sanitizing values and texts.
use getarp.Base.{has_char, replace_char, text_append, ◌≡◌, refl}
use getarp.Base.Int.{pos}
use getarp.Base.{Lacks-of_not_has}
use getarp.Json.{Value, str, int, arr, obj, cons, nil, field, end, put}
use getarp.Json.Nul.{strip_nulls, strip_text}
use getarp.Json.Nul.Clean.{IsStorable, strip_nulls-IsStorable}

-- a text and a key with a NUL in them
abbrev scan : Value
scan = obj (field "user\0" (arr (cons (str "a\0b") (cons (int (pos 7)) nil))) end)

scan_stripped :
    strip_nulls scan ≡ obj (field "user�" (arr (cons (str "a�b") (cons (int (pos 7)) nil))) end)
unfolding strip_nulls strip_text has_char replace_char text_append put
scan_stripped = refl

strip_nulls-IsStorable_example : IsStorable (strip_nulls scan)
strip_nulls-IsStorable_example = strip_nulls-IsStorable scan

abbrev clean : Value
clean = obj (field "user" (str "root") (field "port" (int (pos 22)) end))

clean-IsStorable : IsStorable clean
unfolding has_char
clean-IsStorable = (
  Lacks-of_not_has 0 "user" refl,
  Lacks-of_not_has 0 "root" refl,
  (Lacks-of_not_has 0 "port" refl, tt, tt),
)
