-- ===== src/Examples/Correlating.antt =====
-- A batch of events through the engine, with writes that fail; and clients of the decoys.
use getarp.Base.Int.{pos}
use getarp.Base.{
  eqb, String, ◌==◌, false, none, some, List, [], ◌∷◌, ◌++◌, map, All, strip, lstrip, rstrip,
  text_append, split_char, ◌≡◌, refl, arith, if◌then◌else◌,
}
use getarp.Base.Dict.{get}
use getarp.Retry.{plain, connection_error}
use getarp.Analytics.Event.{Ev}
use getarp.Analytics.Findings.{Engine, unwritten, unranked, scan_detector, attack_detector}
use getarp.Analytics.Engine.{Settings, Moment, Entry, load_detectors, handle_event, consume_batch}
use getarp.Analytics.Engine.Sound.{IsSound, consume_batch-IsSound}
use getarp.Analytics.Engine.Isolated.{SameView, undisturbed, handle_event_isolated}
use getarp.Decoy.Latin.{upper, starts}
use getarp.Decoy.Session.{
  Context, got, silent, broken, reset, flushed, refused, after_drain, log_event,
}
use getarp.Decoy.Serve.{Bytes, ftp, redis, run_handler, settle, serve}
use getarp.Decoy.Ftp.{handle_ftp, dialog, log_login}
use getarp.Decoy.Serve.Accepted.{IsAccepted, serve-Accepted}
use getarp.Decoy.Serve.Captured.{IsNoise, connect_record, login_record, serve_captures}

loaded : load_detectors "scan, attack,,other" ≡ scan_detector [] ∷ attack_detector [] ∷ []
unfolding load_detectors split_char strip lstrip rstrip
loaded = refl

abbrev settings : Settings
settings = record {
  digits = λ s. if s == "22" then some 22 else none;
  int_of = λ s. some (pos 1);
  signs = λ sign text. false;
  port_threshold = 1;
  scan_window = 60;
  login_threshold = 1;
  bf_window = 60;
  max_ips = 2;
  max_events = 2;
  keep_s = 300;
  max_profiles = 2;
}

abbrev login : Ev
login = record {
  event_type = "login_attempt";
  service = "ssh";
  session = "s1";
  username = "root";
  command = "";
  signature = "";
  severity = "";
  dst_port = "22";
  recv = 1000;
}

-- the scan is not written, the attack is not counted
abbrev failing : Moment
failing = record {
  trimmed = 1000;
  detected = λ k. 1000;
  updated = 1001;
  fates = unwritten (plain connection_error "down") ∷ unranked (plain connection_error "down") ∷ [];
}

abbrev going_well : Moment
going_well = record failing { fates = [] }

abbrev engine : Engine
engine = record {
  windows = [];
  detectors = scan_detector [] ∷ attack_detector [] ∷ [];
  memory = record { profiles = []; dirty = []; pending = []; rows = []; ips = []; dropped = [] };
  scan_events = [];
  attack_events = [];
  pings = [];
  acked = [];
}

abbrev entry : String → String → Moment → Entry
entry id ip moment = record {
  id = id;
  src_ip = ip;
  event = login;
  moment = moment;
  ack_fails = false;
}

abbrev batch : List Entry
batch = entry "1-0" "203.0.113.9" failing ∷ entry "2-0" "198.51.100.7" going_well ∷ []

engine-IsSound : IsSound settings engine
unfolding get
engine-IsSound = record {
  windows = record { few = omega arith; short = tt };
  profiles = omega arith;
  kept = λ ip p h. ground arith;
  backed = λ p h. absurd h;
}

consume_batch-IsSound_example : IsSound settings (consume_batch settings batch engine)
consume_batch-IsSound_example =
    consume_batch-IsSound settings batch engine (omega arith) (omega arith) engine-IsSound

handle_event_isolated_example :
    SameView
      (handle_event settings failing "203.0.113.9" login engine)
      (undisturbed settings failing "203.0.113.9" login engine)
handle_event_isolated_example = handle_event_isolated settings failing "203.0.113.9" login engine

abbrev context : Context
context = record {
  peer = record { ip = "203.0.113.9"; port = 40000 };
  dst_port = 2121;
  event_id = λ n. "e";
  now = λ n. "2026-01-01T00:00:00+00:00";
  drains = λ n. flushed;
}

abbrev packets : Bytes
packets = record { page = "page"; greeting = "greeting"; denial = "denial" }

serve-Accepted_example :
    All
      (IsAccepted (λ v. "") "fresh" context)
      (serve packets redis context
        (got "AUTH hunter2\r\n" ∷ got "CONFIG GET dir" ∷ silent ∷ [])).logged
serve-Accepted_example =
    serve-Accepted (λ v. "") "fresh" context (λ n. refl) refl packets redis
      (got "AUTH hunter2\r\n" ∷ got "CONFIG GET dir" ∷ silent ∷ [])

syst-IsNoise : IsNoise "SYST"
unfolding upper starts strip lstrip rstrip
syst-IsNoise = (refl, refl, refl)

serve_captures_example :
    (serve packets ftp context
      (map got ("SYST" ∷ []) ++ got "USER root\r\n" ∷ got "PASS 12 34\r\n" ∷ silent ∷ [])).logged
    ≡ connect_record context ∷ login_record context "root" "12 34" ∷ []
unfolding strip lstrip rstrip text_append
serve_captures_example =
    serve_captures packets context ("SYST" ∷ []) "USER root\r\n" "PASS 12 34\r\n" "root" "12 34"
      (silent ∷ []) (λ n. refl) (omega arith) (syst-IsNoise, tt) refl refl refl

-- a reset after the name: nothing but the connection is logged
name_lost :
    (serve packets ftp context (got "USER root\r\n" ∷ broken reset ∷ [])).logged
    ≡ connect_record context ∷ []
unfolding serve run_handler handle_ftp dialog log_login settle log_event after_drain strip lstrip
    rstrip upper starts
name_lost = refl

-- a reset before the answer to the password is flushed: nothing but the connection is logged
password_lost :
    (serve packets ftp
      (record context { drains = λ n. if eqb n 3 then refused reset else flushed })
      (got "USER root\r\n" ∷ got "PASS 12 34\r\n" ∷ [])).logged
    ≡ connect_record context ∷ []
unfolding serve run_handler handle_ftp dialog log_login settle log_event after_drain strip lstrip
    rstrip upper starts
password_lost = refl
