-- ===== src/Examples/Handling.antt =====
-- The consumer of pipeline/ingestor.py on a failed Cowrie login.
use getarp.Base.Exec.{ok}
use getarp.Base.{
  ℕ, some, [], ◌∷◌, ◌≡◌, ◌∙◌, ◌⊎◌, refl, sym, inl, arith, has_char, replace_char, text_append, eqb,
  if◌then◌else◌,
}
use getarp.Json.{Value, str, obj, end, field, find, put}
use getarp.Json.Nul.{strip_nulls, strip_text}
use getarp.Retry.{is_transient}
use getarp.Ingest.Event.{Event, base, sanitize}
use getarp.Ingest.Source.{Address, is_private_src}
use getarp.Ingest.Normalize.{cowrie, norm_cowrie, complete, normalize}
use getarp.Ingest.Redact.{redact_password, redact_raw, hint, show_nat}
use getarp.Ingest.Store.{has_row, has_ip, upsert_ip}
use getarp.Ingest.Store.Counts.{total_events}
use getarp.Ingest.Handle.{
  Attempt, handle, prepared, parse_ts, admit, consume_one, Ended, consume_from, after_attempt,
  dispatch, deliver, write, store_row, insert, count, publish, payload,
}
use getarp.Ingest.Handle.Replay.{IsTimed, handle_again}
use getarp.Ingest.Handle.Attempts.{EndsWell, consume_one-EndsWell, consume_one_settled}
use getarp.Ingest.Handle.Lost.{Reaches, consume_one_lost, row_for}
use getarp.Ingest.Handle.Keeps.{IsSound, handle-IsSound}
use getarp.Ingest.Handle.Exact.{IsExact, handle-IsExact}
use getarp.Ingest.Handle.Filter.{IsForeign, handle_source}
use getarp.Examples.Data.{
  environment, calm, cut_off, clients, empty_store, failed_login, scanner, reset,
}

abbrev login : Event
login = record (base "fresh") {
  ts = str "2024-05-01T10:00:00Z";
  sensor = str "cowrie";
  service = str "ssh";
  event_type = str "login_attempt";
  src_ip = str "203.0.113.9";
  username = str "root";
  password = str "hunter2";
  raw = failed_login;
}

normalized :
    normalize environment.to_text environment.fresh_id cowrie failed_login ≡ ok (some login)
unfolding normalize norm_cowrie complete find
normalized = refl

same_event :
    (e : Event)
    → normalize environment.to_text environment.fresh_id cowrie failed_login ≡ ok (some e)
    → login ≡ e
same_event e h = let q = sym normalized ∙ h in cc

timed : IsTimed environment cowrie failed_login
unfolding parse_ts sanitize strip_nulls strip_text has_char replace_char
timed e h now now' = rw (sym (same_event e h)) refl

abbrev stored_raw : Value
stored_raw = obj (
    field "eventid" (str "cowrie.login.failed") (
      field "timestamp" (str "2024-05-01T10:00:00Z") (
        field "src_ip" (str "203.0.113.9") (
          field "protocol" (str "ssh")
            (field "username" (str "root") (field "password" (str "[redacted:7chars]") end))))))

reached : Reaches environment cowrie failed_login login scanner (str "[redacted:7chars]") stored_raw
unfolding admit is_private_src sanitize redact_password redact_raw strip_nulls strip_text hint
    show_nat text_append put find
reached = record { normal = normalized; admitted = refl; hidden = refl; scrubbed = refl }

-- the upsert fails at the first attempt, and nothing at the later ones
abbrev attempts : ℕ → Attempt
attempts n = if eqb n 1 then cut_off 1 else calm n

empty-IsSound : IsSound empty_store
unfolding total_events
empty-IsSound = record {
  counted = omega arith;
  published = omega arith;
  queued = omega arith;
  capped = tt;
  storable = tt;
}

handle_again_example :
    (handle environment
      (calm 2)
      cowrie
      failed_login
      (handle environment (calm 1) cowrie failed_login empty_store).1).1
    ≡ (handle environment (calm 1) cowrie failed_login empty_store).1
handle_again_example =
    handle_again environment (calm 1) (calm 2) cowrie failed_login empty_store timed refl

handle-IsSound_example : IsSound (handle environment (calm 1) cowrie failed_login empty_store).1
handle-IsSound_example =
    handle-IsSound environment (calm 1) cowrie failed_login empty_store empty-IsSound

empty-IsExact : IsExact environment empty_store
unfolding has_ip
empty-IsExact = record { counted = λ a. refl; known = λ a. refl; published = refl; queued = refl }

handle-IsExact_example :
    IsExact environment (handle environment (calm 1) cowrie failed_login empty_store).1
handle-IsExact_example =
    handle-IsExact environment (calm 1) cowrie failed_login empty_store
      (record { upsert = refl; bus = refl; queue = refl }) empty-IsExact

consume_one-EndsWell_example :
    EndsWell clients environment attempts 4 cowrie failed_login 1 empty_store
      (consume_one clients environment attempts 4 cowrie failed_login empty_store)
consume_one-EndsWell_example =
    consume_one-EndsWell clients environment attempts 4 cowrie failed_login empty_store
      (omega arith)

consume_one_settled_example :
    (consume_one clients environment attempts 4 cowrie failed_login empty_store).1
    ≡ (handle environment (cut_off 1) cowrie failed_login empty_store).1
consume_one_settled_example =
    consume_one_settled clients environment attempts 4 cowrie failed_login empty_store (omega arith)
      timed refl

handle_source_example :
    ((handle environment (calm 1) cowrie failed_login empty_store).1 ≡ empty_store)
    ⊎ ((e : Event) × (addr : Address) × (normalize environment.to_text environment.fresh_id cowrie
            failed_login
          ≡ ok (some e))
        × IsForeign environment (prepared environment cowrie failed_login e) addr)
handle_source_example = handle_source environment (calm 1) cowrie failed_login empty_store

-- the second attempt ends the loop well
ended : (consume_one clients environment attempts 4 cowrie failed_login empty_store).0 ≡ Ended.done
unfolding consume_one consume_from after_attempt handle dispatch deliver write store_row insert
    count publish normalize norm_cowrie complete find admit is_private_src sanitize redact_password
    redact_raw strip_nulls strip_text has_row has_ip upsert_ip payload hint show_nat text_append put
    is_transient parse_ts
ended = refl

-- the row is stored, and the event that the retry should have published is not
consume_one_lost_example :
    ((consume_one clients environment attempts 4 cowrie failed_login empty_store).1.rows
      ≡ row_for environment
          (cut_off 1)
          cowrie
          failed_login
          login
          (str "[redacted:7chars]")
          stored_raw
        ∷ [])
    × ((consume_one clients environment attempts 4 cowrie failed_login empty_store).1.bus ≡ [])
    × ((consume_one clients environment attempts 4 cowrie failed_login empty_store).1.queue ≡ [])
unfolding has_row
consume_one_lost_example =
    consume_one_lost clients environment attempts 4 cowrie failed_login login scanner
      (str "[redacted:7chars]") stored_raw empty_store (omega arith) timed reached refl refl
      (inl (reset, refl))
