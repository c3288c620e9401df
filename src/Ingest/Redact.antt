-- ===== src/Ingest/Redact.antt =====
-- `_redact_password` and `_redact_raw` of pipeline/ingestor.py.
pub mod Secret
use getarp.Base.Exec.{ok, raise, ◌>>=◌}
use getarp.Base.{
  ℕ, zero, suc, ◌+◌, ◌/◌, ◌%◌, ◌<◌, String, Bool, true, false, Option, none, some, eqb, text_append,
  text_length, ltb, if◌then◌else◌,
}
use getarp.Json.{
  Value, Items, Fields, null, bool, int, float, str, arr, obj, nil, cons, end, field, find, put,
  truthy,
}
use getarp.Retry.{plain, type_error}
use getarp.Ingest.Normalize.{Outcome}

abbrev digit : ℕ → String
digit n =
    if eqb n 0
    then "0"
    else if eqb n 1
    then "1"
    else if eqb n 2
    then "2"
    else if eqb n 3
    then "3"
    else if eqb n 4
    then "4"
    else if eqb n 5
    then "5"
    else if eqb n 6
    then "6"
    else if eqb n 7
    then "7"
    else if eqb n 8
    then "8"
    else "9"

-- decimal digits, the number itself being fuel enough for its digits
digits : ℕ → ℕ → String → String
digits zero n acc = acc
digits (suc f) n acc =
    let acc' = text_append (digit (n % 10)) acc in
    let rest = digits f (n / 10) acc' in if ltb n 10 then acc' else rest

-- `str(n)`
unfoldable pub show_nat : ℕ → String
unfolding digits text_append
show_nat n = digits (suc n) n ""

abbrev items_length : Items → ℕ
items_length nil = 0
items_length (cons x xs) = suc (items_length xs)

abbrev fields_length : Fields → ℕ
fields_length end = 0
fields_length (field k v fs) = suc (fields_length fs)

-- `len(v)`
unfoldable len : Value → Outcome ℕ
len (str s) = ok (text_length s)
len (arr xs) = ok (items_length xs)
len (obj fs) = ok (fields_length fs)
len _ = raise (plain type_error "object has no len()")

-- `f"[redacted:{n}chars]"`
unfoldable pub hint : ℕ → String
hint n = text_append "[redacted:" (text_append (show_nat n) "chars]")

-- `_redact_password`
unfoldable pub redact_password : Value → Outcome Value
unfolding len
redact_password pw = elim (truthy pw) [ false ↦ ok null | true ↦ do n ← len pw; ok (str (hint n)) ]

-- `scrubbed["password"]`, where the key is there
redact_at : Fields → Option Value → Outcome Value
redact_at fs none = ok (obj fs)
redact_at fs (some pw) = do hidden ← redact_password pw; ok (obj (put fs "password" hidden))

-- `_redact_raw`
unfoldable pub redact_raw : Value → Outcome Value
unfolding redact_at
redact_raw (obj fs) = redact_at fs (find fs "password")
redact_raw v = ok v
