-- ===== src/Retry.antt =====
-- retry.py (the same file in pipeline/, enrichment/ and analytics/): which exceptions are worth
-- another attempt, and how long to wait before it.
pub mod Verdict
pub mod Backoff
use getarp.Base.{
  ℕ, suc, ◌+◌, ◌-◌, ◌*◌, ◌/◌, ◌^◌, min, String, Bool, true, false, ◌&&◌, ◌||◌, Option, none, some,
  eqb, leb, replace_char, if◌then◌else◌,
}

-- The class of an exception, as far as the tests of `is_transient` can tell: `pg_error` is any
-- other `asyncpg.PostgresError`, `os_error` any other `OSError`, `other` none of the classes named.
pub data Kind : Type 0 where
  timeout_error connection_error broken_pipe os_error : Kind
  redis_connection_error redis_timeout_error redis_busy_loading_error : Kind
  httpx_timeout httpx_transport : Kind
  http_status : ℕ → Kind
  pg_connection pg_connection_missing pg_connection_failure pg_cannot_connect : Kind
  pg_too_many_connections pg_admin_shutdown pg_crash_shutdown pg_query_canceled : Kind
  pg_deadlock pg_serialization pg_interface pg_error : Kind
  value_error type_error attribute_error item_error other : Kind

-- An exception: its class, its text, and what it was raised `from`.
pub data Ex : Type 0 where
  plain : Kind → String → Ex
  caused : Kind → String → Ex → Ex

-- which client libraries the image ships
pub record Clients : Type 0 where
  pub redis : Bool
  pub httpx : Bool
  pub asyncpg : Bool

abbrev is_builtin : Kind → Bool
is_builtin timeout_error = true
is_builtin connection_error = true
is_builtin broken_pipe = true
is_builtin _ = false

abbrev is_redis : Kind → Bool
is_redis redis_connection_error = true
is_redis redis_timeout_error = true
is_redis redis_busy_loading_error = true
is_redis _ = false

abbrev is_transport : Kind → Bool
is_transport httpx_timeout = true
is_transport httpx_transport = true
is_transport _ = false

abbrev is_pg_transient : Kind → Bool
is_pg_transient pg_connection = true
is_pg_transient pg_connection_missing = true
is_pg_transient pg_connection_failure = true
is_pg_transient pg_cannot_connect = true
is_pg_transient pg_too_many_connections = true
is_pg_transient pg_admin_shutdown = true
is_pg_transient pg_crash_shutdown = true
is_pg_transient pg_query_canceled = true
is_pg_transient pg_deadlock = true
is_pg_transient pg_serialization = true
is_pg_transient pg_interface = true
is_pg_transient _ = false

abbrev is_pg_error : Kind → Bool
is_pg_error pg_error = true
is_pg_error _ = false

-- `TimeoutError`, `ConnectionError` and `BrokenPipeError` are `OSError`s that returned before.
abbrev is_os_error : Kind → Bool
is_os_error os_error = true
is_os_error _ = false

abbrev status_verdict : Kind → Option Bool
status_verdict (http_status code) = some (eqb code 429 || leb 500 code)
status_verdict _ = none

-- The tests on the exception itself, in the code's order; `none` goes on to its cause.
unfoldable pub classify : Clients → Kind → Option Bool
classify cl k =
    if is_builtin k
    then some true
    else if cl.redis && is_redis k
    then some true
    else if cl.httpx && is_transport k
    then some true
    else elim (if cl.httpx then status_verdict k else none) [
      | some b ↦ some b
      | none ↦
          if cl.asyncpg && is_pg_transient k
          then some true
          else if cl.asyncpg && is_pg_error k
          then some false
          else if is_os_error k
          then some true
          else none
    ]

abbrev decide_or : Option Bool → Bool → Bool
decide_or (some b) rest = b
decide_or none rest = rest

-- `is_transient`
unfoldable pub is_transient : Clients → Ex → Bool
unfolding classify
is_transient cl (plain k m) = decide_or (classify cl k) false
is_transient cl (caused k m cause) =
    let rest = is_transient cl cause in decide_or (classify cl k) rest

abbrev pub message : Ex → String
message (plain k m) = m
message (caused k m c) = m

-- `oneline`: newlines become spaces, carriage returns go
unfoldable pub oneline : Ex → String
unfolding replace_char
oneline ex = replace_char 13 "" (replace_char 10 " " (message ex))

-- The `ceiling` of `delay`, in whatever unit the two bounds are given; attempts count from 1.
unfoldable pub ceiling : ℕ → ℕ → ℕ → ℕ
ceiling base cap attempt = min cap (base * 2 ^ (attempt - 1))

-- `delay`: a draw between half the ceiling and the ceiling
unfoldable pub delay : (ℕ → ℕ → ℕ) → ℕ → ℕ → ℕ → ℕ
unfolding ceiling
delay uniform base cap attempt = let c = ceiling base cap attempt in uniform (c / 2) c
