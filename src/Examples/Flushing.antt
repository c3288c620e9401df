-- ===== src/Examples/Flushing.antt =====
-- Profiles written to the database while events arrive, and entries that the worker leaves in hand.
use getarp.Base.{List, [], ◌∷◌, refl}
use getarp.Retry.{plain, connection_error}
use getarp.Analytics.Event.{Ev}
use getarp.Analytics.Profile.{Profile, new_profile}
use getarp.Analytics.Flush
use getarp.Analytics.Flush.{State, Op, halfway, written, event, begin, next}
use getarp.Enrich.Stream
use getarp.Enrich.Stream.Accounted.{IsAccounted, run-accounts}
use getarp.Examples.Data.{clients}
use getarp.Examples.Enriching.{entry, redis_well, idle_world}

abbrev login : Ev
login = record {
  event_type = "login_attempt";
  service = "ssh";
  session = "s1";
  username = "root";
  command = "";
  signature = "";
  severity = "";
  dst_port = "22";
  recv = 100;
}

abbrev at_start : State
at_start = record { profiles = []; dirty = []; pending = []; rows = []; ips = []; dropped = [] }

-- one more event while the flush is under way, and a write that fails between its statements
abbrev interleaved : List Op
interleaved =
    event "203.0.113.9" login 100
    ∷ event "198.51.100.7" login 101
    ∷ begin
    ∷ next (halfway (plain connection_error "down"))
    ∷ event "203.0.113.9" login 102
    ∷ next written
    ∷ []

abbrev seen : Profile
seen = new_profile 100

abbrev unsaved : State
unsaved = record {
  profiles = ("203.0.113.9", seen) ∷ [];
  dirty = "203.0.113.9" ∷ [];
  pending = [];
  rows = [];
  ips = [];
  dropped = [];
}

-- the first entry is acknowledged, the second is left in hand, claimed again and left once more
abbrev dying : List Stream.Op
dying =
    Stream.add "1-0" entry
    ∷ Stream.add "2-0" entry
    ∷ Stream.read 2
    ∷ Stream.handle redis_well
    ∷ Stream.leave
    ∷ Stream.claim ("2-0" ∷ [])
    ∷ Stream.give_up
    ∷ []

abbrev empty_stream : Stream.State
empty_stream = record {
  fresh = [];
  pending = [];
  reading = [];
  reclaiming = [];
  world = idle_world;
}

run-accounts_example : IsAccounted "2-0" (Stream.run clients 5 14 dying empty_stream)
run-accounts_example = run-accounts clients 5 14 dying empty_stream "2-0" refl
