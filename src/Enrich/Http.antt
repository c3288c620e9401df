-- ===== src/Enrich/Http.antt =====
-- What the providers of enrichment/providers.py read of an HTTP exchange of httpx.
use getarp.Base.Exec.{Result, raise}
use getarp.Base.{ℕ, String, Bool, true, ◌&&◌, Option, none, some, ltb, leb, eqb, if◌then◌else◌}
use getarp.Json.{bool, int, str, obj, end, field}
use getarp.Base.Int.{pos}
use getarp.Enrich.Record.{Enrichment}

-- the header Retry-After: not there, a number of seconds, or a text that `int` refuses
pub data Header : Type 0 where
  absent : Header
  seconds : ℕ → Header
  garbled : Header

-- `error` is the text of what `raise_for_status` raises, `body` the fields that are read of the JSON,
-- or the text of what raises while they are read.
pub record Response (A : Type 0) : Type 0 where
  pub status : ℕ
  pub retry_after : Header
  pub error : String
  pub body : Result String A

-- the `await c.get(...)`: a failure has a text
pub data Reply (A : Type 0) : Type 0 where
  unreachable : String → Reply A
  response : Response A → Reply A

-- `raise_for_status`: only a 2xx passes
abbrev pub is_success : ℕ → Bool
is_success n = leb 200 n && ltb n 300

unfoldable pub checked_body : {A : Type 0} → Response A → Result String A
checked_body r = if is_success r.status then r.body else raise r.error

-- `int(resp.headers.get("Retry-After", 0)) or default`; `none` is a ValueError
unfoldable pub wait_of : Header → ℕ → Option ℕ
wait_of absent d = some d
wait_of (seconds n) d = some (if eqb n 0 then d else n)
wait_of garbled d = none

abbrev pub bad_header : String
bad_header = "invalid literal for int()"

-- `e.raw = {"error": str(ex)}`
abbrev pub with_error : Enrichment → String → Enrichment
with_error e ex = record e { raw = obj (field "error" (str ex) end) }

-- `e.raw = {"rate_limited": True, "retry_after": ...}`
abbrev pub limited_stub : Enrichment → ℕ → Enrichment
limited_stub e wait = record e {
  raw = obj (field "rate_limited" (bool true) (field "retry_after" (int (pos wait)) end));
}

-- `e.raw = {"quota_exhausted": True, ...}`
abbrev pub exhausted_stub : Enrichment → ℕ → ℕ → Enrichment
exhausted_stub e count reset = record e {
  raw = obj (
      field "quota_exhausted" (bool true)
        (field "daily_count" (int (pos count)) (field "resets_at" (int (pos reset)) end)));
}
