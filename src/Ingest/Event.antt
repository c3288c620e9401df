-- ===== src/Ingest/Event.antt =====
-- The canonical event of pipeline/ingestor.py: one field for each key of `_base()`.
use getarp.Base.Int.{pos}
use getarp.Base.{String}
use getarp.Json.{Value, null, int, str}
use getarp.Json.Nul.{strip_nulls}
use getarp.Json.Nul.Clean.{IsStorable, strip_nulls-IsStorable}

pub record Event : Type 0 where
  pub event_id : Value
  pub ts : Value
  pub sensor : Value
  pub service : Value
  pub event_type : Value
  pub src_ip : Value
  pub src_port : Value
  pub dst_port : Value
  pub username : Value
  pub password : Value
  pub command : Value
  pub signature : Value
  pub severity : Value
  pub session : Value
  pub raw : Value

-- `_base()`, with the random id that it draws
abbrev pub base : String → Event
base fresh = record {
  event_id = str fresh;
  ts = null;
  sensor = null;
  service = null;
  event_type = null;
  src_ip = null;
  src_port = null;
  dst_port = null;
  username = null;
  password = null;
  command = null;
  signature = null;
  severity = int (pos 0);
  session = null;
  raw = null;
}

-- `_strip_nulls(e)`: the keys are those of `_base()` and hold no NUL
unfoldable pub sanitize : Event → Event
sanitize e = record {
  event_id = strip_nulls e.event_id;
  ts = strip_nulls e.ts;
  sensor = strip_nulls e.sensor;
  service = strip_nulls e.service;
  event_type = strip_nulls e.event_type;
  src_ip = strip_nulls e.src_ip;
  src_port = strip_nulls e.src_port;
  dst_port = strip_nulls e.dst_port;
  username = strip_nulls e.username;
  password = strip_nulls e.password;
  command = strip_nulls e.command;
  signature = strip_nulls e.signature;
  severity = strip_nulls e.severity;
  session = strip_nulls e.session;
  raw = strip_nulls e.raw;
}

-- no field of the event holds a NUL
pub record IsStorableEvent (e : Event) : Type 0 where
  pub event_id : IsStorable e.event_id
  pub ts : IsStorable e.ts
  pub sensor : IsStorable e.sensor
  pub service : IsStorable e.service
  pub event_type : IsStorable e.event_type
  pub src_ip : IsStorable e.src_ip
  pub src_port : IsStorable e.src_port
  pub dst_port : IsStorable e.dst_port
  pub username : IsStorable e.username
  pub password : IsStorable e.password
  pub command : IsStorable e.command
  pub signature : IsStorable e.signature
  pub severity : IsStorable e.severity
  pub session : IsStorable e.session
  pub raw : IsStorable e.raw

pub sanitize-IsStorableEvent : (e : Event) → IsStorableEvent (sanitize e)
unfolding sanitize
sanitize-IsStorableEvent e = record {
  event_id = strip_nulls-IsStorable e.event_id;
  ts = strip_nulls-IsStorable e.ts;
  sensor = strip_nulls-IsStorable e.sensor;
  service = strip_nulls-IsStorable e.service;
  event_type = strip_nulls-IsStorable e.event_type;
  src_ip = strip_nulls-IsStorable e.src_ip;
  src_port = strip_nulls-IsStorable e.src_port;
  dst_port = strip_nulls-IsStorable e.dst_port;
  username = strip_nulls-IsStorable e.username;
  password = strip_nulls-IsStorable e.password;
  command = strip_nulls-IsStorable e.command;
  signature = strip_nulls-IsStorable e.signature;
  severity = strip_nulls-IsStorable e.severity;
  session = strip_nulls-IsStorable e.session;
  raw = strip_nulls-IsStorable e.raw;
}
