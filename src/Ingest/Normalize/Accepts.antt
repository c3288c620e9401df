-- ===== src/Ingest/Normalize/Accepts.antt =====
-- What the normalizers let through.
use getarp.Base.Exec.{ok, ◌>>=◌, >>=-eq-ok, ok-injective}
use getarp.Base.{String, true, some, ◌≡◌, refl, arith, Bool-cases, inl, inr}
use getarp.Json.{Value, Fields, str, obj, truthy, get}
use getarp.Ingest.Event.{Event}
use getarp.Ingest.Normalize.{
  sensor_name, Sensor, cowrie, suricata, extra, normalize, complete, norm_cowrie, norm_suricata,
  norm_extra, suricata_signal, suricata_event, suricata_base, cowrie_event, extra_event, eventid_of,
  hashable, service_of, is_signal,
}

-- An accepted event has a time and a source, carries its record whole, and names its sensor.
pub record Accepted (sensor : Sensor) (r : Value) (e : Event) : Type 0 where
  pub timed : truthy e.ts ≡ true
  pub sourced : truthy e.src_ip ≡ true
  pub whole : e.raw ≡ r
  pub named : e.sensor ≡ str (sensor_name sensor)

complete-Accepted :
    (sensor : Sensor) (r : Value) (e0 e : Event)
    → e0.raw ≡ r
    → e0.sensor ≡ str (sensor_name sensor)
    → complete e0 ≡ some e
    → Accepted sensor r e
unfolding complete
complete-Accepted sensor r e0 e hr hs h = ground arith

cowrie-Accepted :
    (fresh : String) (r : Value) (e : Event)
    → norm_cowrie fresh r ≡ ok (some e)
    → Accepted cowrie r e
unfolding norm_cowrie
cowrie-Accepted fresh (obj fs) e h =
    let built = λ (v : Value). cowrie_event fresh (obj fs) fs v in
    let (v, _, h') =
      >>=-eq-ok (hashable (eventid_of fs)) (λ v. ok (complete (cowrie_event fresh (obj fs) fs v)))
        h in
    complete-Accepted cowrie (obj fs) (built v) e refl refl (ok-injective h')
cowrie-Accepted fresh _ e h = cc

suricata_event_keeps :
    (to_text : Value → String) (et : Value) (fs : Fields) (e e' : Event)
    → suricata_event to_text et fs e ≡ ok e'
    → (e'.raw ≡ e.raw) × (e'.sensor ≡ e.sensor)
unfolding suricata_event
suricata_event_keeps to_text et fs e e' h = ground arith

signal_only :
    (to_text : Value → String) (fresh : String) (fs : Fields) (e : Event)
    → norm_suricata to_text fresh (obj fs) ≡ ok (some e)
    → (is_signal (get fs "event_type") ≡ true)
      × (suricata_signal to_text fresh (obj fs) fs ≡ ok (some e))
unfolding norm_suricata
signal_only to_text fresh fs e h = elim (Bool-cases (is_signal (get fs "event_type"))) [
  | inl s ↦ (s, rw s at h)
  | inr q ↦ absurd (cc (rw q at h))
]

suricata-Accepted :
    (to_text : Value → String) (fresh : String) (r : Value) (e : Event)
    → norm_suricata to_text fresh r ≡ ok (some e)
    → Accepted suricata r e
unfolding suricata_signal
suricata-Accepted to_text fresh (obj fs) e h =
    let typed = λ (v : Value).
      suricata_event to_text (get fs "event_type") fs (suricata_base fresh (obj fs) fs v) in
    let (v, _, h1) =
      >>=-eq-ok (service_of (get fs "app_proto") (get fs "dest_port"))
        (λ v. typed v >>= λ e'. ok (complete e')) (signal_only to_text fresh fs e h).1 in
    let (e', built, h2) = >>=-eq-ok (typed v) (λ e'. ok (complete e')) h1 in
    let (raw, sensor) =
      suricata_event_keeps to_text (get fs "event_type") fs (suricata_base fresh (obj fs) fs v) e'
        built in
    complete-Accepted suricata (obj fs) e' e raw sensor (ok-injective h2)
suricata-Accepted to_text fresh _ e h = unfold norm_suricata in cc

extra-Accepted :
    (fresh : String) (r : Value) (e : Event) → norm_extra fresh r ≡ ok (some e) → Accepted extra r e
unfolding norm_extra
extra-Accepted fresh (obj fs) e h =
    complete-Accepted extra (obj fs) (extra_event fresh (obj fs) fs) e refl refl (ok-injective h)
extra-Accepted fresh _ e h = cc

-- Whatever record a normalizer accepts, the event has a time and a source, carries the whole record
-- as its raw payload, and names the sensor that it came from.
pub normalize-Accepted :
    (to_text : Value → String) (fresh : String) (sensor : Sensor) (r : Value) (e : Event)
    → normalize to_text fresh sensor r ≡ ok (some e)
    → Accepted sensor r e
unfolding normalize
normalize-Accepted to_text fresh cowrie r e h = cowrie-Accepted fresh r e h
normalize-Accepted to_text fresh suricata r e h = suricata-Accepted to_text fresh r e h
normalize-Accepted to_text fresh extra r e h = extra-Accepted fresh r e h
