-- ===== src/Ingest/Handle.antt =====
-- `_handle` and `_consume_one` of pipeline/ingestor.py. Each call to Postgres or Redis may fail before
-- it has an effect; what was written before stays, for no transaction spans the calls.
-- A record is handled from its start to its end with nothing of another consumer in between.
pub mod Replay
pub mod Keeps
pub mod Attempts
pub mod Lost
pub mod Exact
pub mod Filter
use getarp.Base.Exec.{Result, ok, raise}
use getarp.Base.{
  ℕ, zero, suc, ◌+◌, String, ◌==◌, Bool, true, false, ◌&&◌, ◌||◌, not, Option, none, some, List, [],
  ◌∷◌, ◌++◌, map, elem, leb, replace_char, text_append, if◌then◌else◌,
}
use getarp.Json.{Value, null, str, truthy}
use getarp.Retry.{Ex, Clients, plain, caused, value_error, item_error, is_transient, oneline, Kind}
use getarp.Ingest.Event.{Event, sanitize}
use getarp.Ingest.Normalize.{Sensor, sensor_name, normalize}
use getarp.Ingest.Source.{Address, is_private_src}
use getarp.Ingest.Redact.{redact_password, redact_raw}
use getarp.Ingest.Store.{Row, Store, has_row, has_ip, upsert_ip, service_text, port_number}

-- What the code takes from Python's library and from its environment. `event_id` is `_event_id`: the
-- uuid5 of the sensor and the canonical JSON of the record. `parse_ip` is `ipaddress.ip_address`,
-- `parse_iso` is `datetime.fromisoformat`, `to_text` is `str`.
pub record Runtime : Type 0 where
  pub parse_ip : Value → Option Address
  pub parse_iso : String → Option ℕ
  pub event_id : Sensor → Value → String
  pub to_text : Value → String
  pub fresh_id : String
  pub drop_private_src : Bool
  pub self_ips : List String

-- One attempt: the time, and the failure of each call to the outside, if it has one. Values that a
-- column refuses are a failure of the INSERT.
pub record Attempt : Type 0 where
  pub now : ℕ
  pub insert_fault : Option Ex
  pub upsert_fault : Option Ex
  pub bus_fault : Option Ex
  pub queue_fault : Option Ex

-- `_parse_ts`
unfoldable pub parse_ts : (String → Option ℕ) → ℕ → Value → ℕ
parse_ts parse_iso now (str s) = elim (truthy (str s)) [
  | false ↦ now
  | true ↦ elim (parse_iso (replace_char 90 "+00:00" s)) [ none ↦ now | some t ↦ t ]
]
parse_ts parse_iso now v = now

-- `"" if v is None else str(v)`
abbrev field_text : (Value → String) → Value → String
field_text to_text null = ""
field_text to_text v = to_text v

-- every key of the event but `raw`
abbrev payload_fields : Event → List (String × Value)
payload_fields e =
    ("event_id", e.event_id)
    ∷ ("ts", e.ts)
    ∷ ("sensor", e.sensor)
    ∷ ("service", e.service)
    ∷ ("event_type", e.event_type)
    ∷ ("src_ip", e.src_ip)
    ∷ ("src_port", e.src_port)
    ∷ ("dst_port", e.dst_port)
    ∷ ("username", e.username)
    ∷ ("password", e.password)
    ∷ ("command", e.command)
    ∷ ("signature", e.signature)
    ∷ ("severity", e.severity)
    ∷ ("session", e.session)
    ∷ []

-- the `payload` of `_handle`
unfoldable pub payload : (Value → String) → Event → List (String × String)
payload to_text e = map (λ f. (f.0, field_text to_text f.1)) (payload_fields e)

abbrev pub ip_text : Value → String
ip_text v = elim v [ str s ↦ s | _ ↦ "" ]

-- what `_handle` returns, or raises, and the store after it
abbrev pub Run : Type 0
Run = Result Ex (Unit {0}) × Store

-- the two XADDs
unfoldable pub publish : Runtime → Attempt → Event → Bool → Store → Run
publish rt a e is_new s = elim a.bus_fault [
  | some ex ↦ (raise ex, s)
  | none ↦
      let s' : Store = record s { bus = s.bus ++ payload rt.to_text e ∷ [] } in
      if is_new
      then elim a.queue_fault [
        | some ex ↦ (raise ex, s')
        | none ↦ (ok tt, record s' { queue = s'.queue ++ ip_text e.src_ip ∷ [] })
      ]
      else (ok tt, s')
]

abbrev joined : List String → String
joined [] = ""
joined (s ∷ ss) = text_append s (joined ss)

-- `ItemError(f"db error [...]", ex)`, raised `from ex`
abbrev db_error : (Value → String) → Event → Ex → Ex
db_error to_text e ex =
    caused item_error
      (joined (
        "db error ["
        ∷ to_text e.sensor
        ∷ " "
        ∷ to_text e.src_ip
        ∷ " "
        ∷ to_text e.event_type
        ∷ "]: "
        ∷ oneline ex
        ∷ []))
      ex

-- `_upsert_ip`, then the publication
unfoldable pub count : Runtime → Attempt → Event → Address → Store → Run
count rt a e addr s = elim a.upsert_fault [
  | some ex ↦ (raise (db_error rt.to_text e ex), s)
  | none ↦ publish rt a e (not (has_ip addr s.ips)) (record s {
    ips = upsert_ip a.now addr (service_text e.service) (port_number e.dst_port) s.ips;
  })
]

-- the INSERT into `events`, ON CONFLICT DO NOTHING
unfoldable pub insert : Runtime → Attempt → Event → Address → Row → Store → Run
insert rt a e addr row s = elim a.insert_fault [
  | some ex ↦ (raise (db_error rt.to_text e ex), s)
  | none ↦
      if has_row row s.rows
      then (ok tt, s)
      else count rt a e addr (record s { rows = row ∷ s.rows })
]

-- the INSERT, where neither redaction raised
unfoldable pub store_row :
    Runtime → Attempt → String → Event → Address → Result Ex Value → Result Ex Value → Store → Run
store_row rt a id e addr (raise ex) raw s = (raise ex, s)
store_row rt a id e addr (ok pw) (raise ex) s = (raise ex, s)
store_row rt a id e addr (ok pw) (ok raw) s =
    insert rt a e addr
      (record {
        event_id = id;
        ts = parse_ts rt.parse_iso a.now e.ts;
        event = e;
        password = pw;
        raw = raw;
      })
      s

-- `ts`, `stored_password` and `stored_raw`, then the write
unfoldable pub write : Runtime → Attempt → String → Event → Address → Store → Run
write rt a id e addr s = store_row rt a id e addr (redact_password e.password) (redact_raw e.raw) s

abbrev pub is_self : Runtime → Event → Bool
is_self rt e = elim e.src_ip [ str s ↦ elem s rt.self_ips | _ ↦ false ]

-- the three early returns on the source
unfoldable pub admit : Runtime → Event → Option Address
admit rt e = elim (rt.parse_ip e.src_ip) [
  | none ↦ none
  | some addr ↦
      if rt.drop_private_src && is_private_src addr
      then none
      else if is_self rt e
      then none
      else some addr
]

-- `e["event_id"] = _event_id(...)`, then `_strip_nulls(e)`
abbrev pub prepared : Runtime → Sensor → Value → Event → Event
prepared rt sensor r e = sanitize (record e { event_id = str (rt.event_id sensor r) })

-- an event that the filters let through is written
unfoldable pub deliver : Runtime → Attempt → String → Event → Option Address → Store → Run
deliver rt a id e none s = (ok tt, s)
deliver rt a id e (some addr) s = write rt a id e addr s

-- what follows the call of the normalizer
unfoldable pub dispatch :
    Runtime → Attempt → Sensor → Value → Result Ex (Option Event) → Store → Run
dispatch rt a sensor r (raise ex) s = (
  raise (
      plain value_error
        (joined (sensor_name sensor ∷ " normalizer rejected the record: " ∷ oneline ex ∷ []))),
  s,
)
dispatch rt a sensor r (ok none) s = (ok tt, s)
dispatch rt a sensor r (ok (some e)) s =
    deliver rt a (rt.event_id sensor r) (prepared rt sensor r e) (admit rt (prepared rt sensor r e))
      s

-- `_handle`
unfoldable pub handle : Runtime → Attempt → Sensor → Value → Store → Run
handle rt a sensor r s = dispatch rt a sensor r (normalize rt.to_text rt.fresh_id sensor r) s

-- How the loop over the attempts ends: `dropped transient attempt ex`. The loop always ends in one of
-- its two `return`s, if it is entered at all.
pub data Ended : Type 0 where
  done : Ended
  dropped : Bool → ℕ → Ex → Ended
  no_attempt : Ended

-- the `return` and the `except` of one round; `again` is the next round
unfoldable pub after_attempt : Clients → ℕ → ℕ → Run → (Store → Ended × Store) → Ended × Store
after_attempt cl max attempt (ok u, s) again = (done, s)
after_attempt cl max attempt (raise ex, s) again =
    if not (is_transient cl ex) || leb max attempt
    then (dropped (is_transient cl ex) attempt ex, s)
    else again s

-- The loop of `_consume_one`, with `left` attempts to go; attempts count from 1.
unfoldable pub consume_from :
    Clients → Runtime → (ℕ → Attempt) → ℕ → Sensor → Value → ℕ → ℕ → Store → Ended × Store
consume_from cl rt at max sensor r zero attempt s = (no_attempt, s)
consume_from cl rt at max sensor r (suc left) attempt s =
    after_attempt cl max attempt (handle rt (at attempt) sensor r s)
      (consume_from cl rt at max sensor r left (attempt + 1))

-- `_consume_one`
unfoldable pub consume_one :
    Clients → Runtime → (ℕ → Attempt) → ℕ → Sensor → Value → Store → Ended × Store
consume_one cl rt at max sensor r s = consume_from cl rt at max sensor r max 1 s
