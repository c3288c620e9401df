-- ===== src/Ingest/Normalize.antt =====
-- The normalizers of pipeline/ingestor.py. A record is whatever `json.loads` made of a line, so each
-- step that Python would refuse at another shape may raise.
pub mod Accepts
use getarp.Base.Int.{ℤ, pos}
use getarp.Base.Exec.{Result, ok, raise, ◌>>=◌}
use getarp.Base.{
  ℕ, String, Bool, true, false, Option, none, some, ◌==◌, ◌||◌, ◌&&◌, eqb, not, strip, text_append,
  if◌then◌else◌,
}
use getarp.Json.{
  Value, Items, Fields, null, bool, int, float, str, arr, obj, end, find, get, or_default, truthy,
  or_value, is_text,
}
use getarp.Retry.{Ex, plain, attribute_error, type_error}
use getarp.Ingest.Event.{Event, base}

abbrev pub Outcome : Type 0 → Type 0
Outcome A = Result Ex A

-- `v.get` on what is no dict
abbrev as_dict : Value → Outcome Fields
as_dict (obj fs) = ok fs
as_dict _ = raise (plain attribute_error "object has no attribute 'get'")

-- a list or a dict as a dict key
abbrev pub hashable : Value → Outcome Value
hashable (arr xs) = raise (plain type_error "unhashable type")
hashable (obj fs) = raise (plain type_error "unhashable type")
hashable v = ok v

-- `COWRIE_MAP.get(eventid, ("event", None))[0]`
abbrev cowrie_map : Value → String
cowrie_map v =
    if is_text v "cowrie.session.connect"
    then "connect"
    else if is_text v "cowrie.login.failed"
    then "login_attempt"
    else if is_text v "cowrie.login.success"
    then "login_success"
    else if is_text v "cowrie.command.input" || is_text v "cowrie.command.failed"
    then "command"
    else if is_text v "cowrie.session.file_download" || is_text v "cowrie.session.file_upload"
    then "file"
    else if is_text v "cowrie.client.version"
    then "connect"
    else "event"

-- the last lines of each normalizer
unfoldable pub complete : Event → Option Event
complete e = if not (truthy e.ts) || not (truthy e.src_ip) then none else some e

-- the event that `norm_cowrie` builds
abbrev pub cowrie_event : String → Value → Fields → Value → Event
cowrie_event fresh r fs eventid = record (base fresh) {
  sensor = str "cowrie";
  ts = get fs "timestamp";
  src_ip = get fs "src_ip";
  src_port = get fs "src_port";
  dst_port = get fs "dst_port";
  username = get fs "username";
  password = get fs "password";
  command = get fs "input";
  session = get fs "session";
  service = str "ssh";
  event_type = str (cowrie_map eventid);
  signature = if is_text eventid "cowrie.client.version" then get fs "version" else null;
  raw = r;
}

abbrev pub eventid_of : Fields → Value
eventid_of fs = or_default (find fs "eventid") (str "")

-- `norm_cowrie`
unfoldable pub norm_cowrie : String → Value → Outcome (Option Event)
norm_cowrie fresh r = do
  fs ← as_dict r
  eventid ← hashable (eventid_of fs)
  ok (complete (cowrie_event fresh r fs eventid))

-- the keys of the table in `_svc_from_port`
abbrev port_service : ℕ → String
port_service n =
    if eqb n 22
    then "ssh"
    else if eqb n 80
    then "http"
    else if eqb n 8080
    then "http"
    else if eqb n 3306
    then "mysql"
    else if eqb n 21
    then "ftp"
    else if eqb n 6379
    then "redis"
    else "tcp"

-- `_svc_from_port`; a float that equals an integer is the same key
abbrev svc_from_port : Value → Outcome Value
svc_from_port (int (pos n)) = ok (str (port_service n))
svc_from_port (float (some (pos n)) s) = ok (str (port_service n))
svc_from_port (arr xs) = raise (plain type_error "unhashable type")
svc_from_port (obj fs) = raise (plain type_error "unhashable type")
svc_from_port v = ok (str "tcp")

-- `a or _svc_from_port(p)`
abbrev pub service_of : Value → Value → Outcome Value
service_of app port = elim (truthy app) [ true ↦ ok app | false ↦ svc_from_port port ]

-- `f'{method} {url}'.strip()`, with `str()` of a value that is no text left to the runtime
abbrev http_line : (Value → String) → Fields → Value
http_line to_text h = str (
    strip (
      text_append (to_text (or_default (find h "http_method") (str "")))
        (text_append " " (to_text (or_default (find h "url") (str ""))))))

-- the branches of `norm_suricata` on the record's `event_type`
unfoldable pub suricata_event : (Value → String) → Value → Fields → Event → Outcome Event
suricata_event to_text et fs e =
    if is_text et "alert"
    then (do
      a ← as_dict (or_default (find fs "alert") (obj end))
      ok (record e {
        event_type = str "alert";
        signature = get a "signature";
        severity = or_default (find a "severity") (int (pos 2));
      }))
    else if is_text et "http"
    then (do
      h ← as_dict (or_default (find fs "http") (obj end))
      ok (record e { event_type = str "connect"; command = http_line to_text h }))
    else ok (record e { event_type = str "anomaly" })

-- the fields that `norm_suricata` sets on every branch
abbrev pub suricata_base : String → Value → Fields → Value → Event
suricata_base fresh r fs service = record (base fresh) {
  sensor = str "suricata";
  ts = get fs "timestamp";
  src_ip = get fs "src_ip";
  src_port = get fs "src_port";
  dst_port = get fs "dest_port";
  service = service;
  raw = r;
}

unfoldable pub suricata_signal : (Value → String) → String → Value → Fields → Outcome (Option Event)
suricata_signal to_text fresh r fs = do
  service ← service_of (get fs "app_proto") (get fs "dest_port")
  e ← suricata_event to_text (get fs "event_type") fs (suricata_base fresh r fs service)
  ok (complete e)

abbrev pub is_signal : Value → Bool
is_signal et = is_text et "alert" || is_text et "http" || is_text et "anomaly"

-- `norm_suricata`
unfoldable pub norm_suricata : (Value → String) → String → Value → Outcome (Option Event)
unfolding suricata_signal
norm_suricata to_text fresh r = do
  fs ← as_dict r
  if is_signal (get fs "event_type") then suricata_signal to_text fresh r fs else ok none

-- The event that `norm_extra` builds: a key that is missing or `null` keeps the default, which is
-- `None` for each of these.
abbrev pub extra_event : String → Value → Fields → Event
extra_event fresh r fs = record (base fresh) {
  ts = get fs "ts";
  service = get fs "service";
  event_type = get fs "event_type";
  src_ip = get fs "src_ip";
  src_port = get fs "src_port";
  dst_port = get fs "dst_port";
  username = get fs "username";
  password = get fs "password";
  command = get fs "command";
  sensor = str "extra";
  raw = r;
}

-- `norm_extra`
unfoldable pub norm_extra : String → Value → Outcome (Option Event)
norm_extra fresh r = do fs ← as_dict r; ok (complete (extra_event fresh r fs))

-- the keys of `NORMALIZERS`
pub data Sensor : Type 0 where
  cowrie suricata extra : Sensor

-- the key of a sensor, which its events carry too
abbrev pub sensor_name : Sensor → String
sensor_name cowrie = "cowrie"
sensor_name suricata = "suricata"
sensor_name extra = "extra"

-- `NORMALIZERS[sensor](record)`
unfoldable pub normalize : (Value → String) → String → Sensor → Value → Outcome (Option Event)
unfolding norm_cowrie norm_suricata norm_extra
normalize to_text fresh cowrie r = norm_cowrie fresh r
normalize to_text fresh suricata r = norm_suricata to_text fresh r
normalize to_text fresh extra r = norm_extra fresh r
