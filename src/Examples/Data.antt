-- ===== src/Examples/Data.antt =====
-- The inputs that the examples share: an environment, a store, and a record of each sensor.
use getarp.Base.{ℕ, Option, none, some, true, [], ◌∷◌}
use getarp.Json.{Value, str, obj, end, field}
use getarp.Retry.{Ex, Clients, plain, connection_error}
use getarp.Ingest.Source.{Address, ipv4}
use getarp.Ingest.Store.{Store}
use getarp.Ingest.Handle.{Runtime, Attempt}

abbrev pub clients : Clients
clients = record { redis = true; httpx = true; asyncpg = true }

abbrev pub scanner : Address
scanner = record { version = 4; number = ipv4 203 0 113 9 }

abbrev pub parse_ip : Value → Option Address
parse_ip v = elim v [ str s ↦ some scanner | _ ↦ none ]

abbrev pub environment : Runtime
environment = record {
  parse_ip = parse_ip;
  parse_iso = λ s. some 1700;
  event_id = λ sensor r. "id-1";
  to_text = λ v. "text";
  fresh_id = "fresh";
  drop_private_src = true;
  self_ips = "198.51.100.1" ∷ [];
}

-- an attempt that nothing disturbs
abbrev pub calm : ℕ → Attempt
calm now = record {
  now = now;
  insert_fault = none;
  upsert_fault = none;
  bus_fault = none;
  queue_fault = none;
}

abbrev pub reset : Ex
reset = plain connection_error "connection reset"

-- the upsert fails
abbrev pub cut_off : ℕ → Attempt
cut_off now = record {
  now = now;
  insert_fault = none;
  upsert_fault = some reset;
  bus_fault = none;
  queue_fault = none;
}

abbrev pub empty_store : Store
empty_store = record { rows = []; ips = []; bus = []; queue = [] }

-- a failed login, as Cowrie logs it
abbrev pub failed_login : Value
failed_login = obj (
    field "eventid" (str "cowrie.login.failed") (
      field "timestamp" (str "2024-05-01T10:00:00Z") (
        field "src_ip" (str "203.0.113.9") (
          field "protocol" (str "ssh")
            (field "username" (str "root") (field "password" (str "hunter2") end))))))
