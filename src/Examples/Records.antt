-- ===== src/Examples/Records.antt =====
-- Normalizers, source ranges, redaction and the rows of `ips`.
use getarp.Base.{◌≡◌, refl}
use getarp.Json.{Value, str, obj, field, end, put}
use getarp.Ingest.Event.{Event, base}
use getarp.Ingest.Redact.{redact_raw}
use getarp.Ingest.Redact.Secret.{redact_raw_hides}

abbrev probe : Value
probe = obj (field "timestamp" (str "2024-05-01") (field "src_ip" (str "203.0.113.9") end))

abbrev probed : Event
probed = record (base "fresh") {
  ts = str "2024-05-01";
  sensor = str "cowrie";
  service = str "ssh";
  event_type = str "event";
  src_ip = str "203.0.113.9";
  raw = probe;
}

redact_raw_hides_example :
    redact_raw (obj (put (field "password" (str "old") end) "password" (str "hunter2")))
    ≡ redact_raw (obj (put (field "password" (str "old") end) "password" (str "letmein")))
redact_raw_hides_example =
    redact_raw_hides (field "password" (str "old") end) "hunter2" "letmein" refl
