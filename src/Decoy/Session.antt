-- ===== src/Decoy/Session.antt =====
-- One connection to a decoy: what is read from the client, what is logged of it and what it is sent.
use getarp.Base.Int.{pos}
use getarp.Base.Exec.{Result, raise}
use getarp.Base.{ℕ, String, List, [], ◌∷◌, ◌++◌, length}
use getarp.Json.{Value, Fields, int, str, obj, field}

-- `peername`
pub record Peer : Type 0 where
  pub ip : String
  pub port : ℕ

-- why a call on the connection raises
pub data Failure : Type 0 where
  reset broken_pipe : Failure
  other : String → Failure

-- one read: bytes, which are empty at the end of the stream; a TimeoutError; or a failure
pub data Read : Type 0 where
  got : String → Read
  silent : Read
  broken : Failure → Read

-- the lines appended to the log, and what was written to the client
pub record Session : Type 0 where
  pub logged : List Value
  pub sent : List String

-- how a `writer.drain()` ends: it returns; it raises a TimeoutError with this text; or it raises another
-- exception
pub data Drained : Type 0 where
  flushed : Drained
  timed_out : String → Drained
  refused : Failure → Drained

-- where the connection came in, and the id and the time that the n-th record of it gets, and how
-- the drain ends after that many writes
pub record Context : Type 0 where
  pub peer : Peer
  pub dst_port : ℕ
  pub event_id : ℕ → String
  pub now : ℕ → String
  pub drains : ℕ → Drained

abbrev pub number : ℕ → Value
number n = int (pos n)

-- the record of an event, the n-th of its connection
abbrev pub stamped : Context → ℕ → Fields → Fields
stamped c n fields =
    field "event_id" (str (c.event_id n))
      (field "ts" (str (c.now n)) (field "sensor" (str "extra") fields))

-- `log_event`
unfoldable pub log_event : Context → Fields → Session → Session
log_event c fields s = record s {
  logged = s.logged ++ obj (stamped c (length s.logged) fields) ∷ [];
}

-- the arguments that every decoy gives it, then its own
abbrev pub about : Context → String → String → Fields → Fields
about c service event_type more = field "service" (str service) (
    field "dst_port" (number c.dst_port) (
      field "src_ip" (str c.peer.ip)
        (field "src_port" (number c.peer.port) (field "event_type" (str event_type) more))))

-- `writer.write`
abbrev pub write : String → Session → Session
write text s = record s { sent = s.sent ++ text ∷ [] }

-- `await writer.drain()`, then `next`; `late` is what the handler does about a TimeoutError
unfoldable pub after_drain :
    {A : Type 0}
    → Drained
    → (String → Result Failure A)
    → Session
    → Result Failure A × Session
    → Result Failure A × Session
after_drain flushed late s next = next
after_drain (timed_out text) late s next = (late text, s)
after_drain (refused f) late s next = (raise f, s)

-- the drain after what was written so far
abbrev pub drain : Context → Session → Drained
drain c s = c.drains (length s.sent)

-- outside a `try`
abbrev pub uncaught : {A : Type 0} → String → Result Failure A
uncaught text = raise (other text)
