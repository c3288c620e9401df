-- ===== src/Decoy/Serve.antt =====
-- The wiring of honeypot/extra-services/services.py: which decoy listens on which port, and what becomes of
-- an exception.
pub mod Accepted
pub mod Captured
use getarp.Base.Exec.{Result, ok, raise}
use getarp.Base.{ℕ, String, List, [], ◌∷◌}
use getarp.Json.{Fields, str, obj, end, field}
use getarp.Decoy.Session.{
  Failure, reset, broken_pipe, other, Read, Session, Context, number, log_event,
}
use getarp.Decoy.Http.{handle_http}
use getarp.Decoy.Mysql.{handle_mysql}
use getarp.Decoy.Ftp.{handle_ftp}
use getarp.Decoy.Redis.{handle_redis}

pub data Handler : Type 0 where
  http mysql ftp redis : Handler

-- the fixed bytes: FAKE_LOGIN with its header, `mysql_greeting()`, and the packet that denies
pub record Bytes : Type 0 where
  pub page : String
  pub greeting : String
  pub denial : String

-- `listeners`
abbrev pub listeners : List (Handler × ℕ)
listeners = (http, 8080) ∷ (http, 8081) ∷ (mysql, 3306) ∷ (ftp, 2121) ∷ (redis, 6379) ∷ []

unfoldable pub run_handler :
    Bytes → Handler → Context → List Read → Session → Result Failure (Unit {0}) × Session
run_handler b http c reads s = handle_http b.page c reads s
run_handler b mysql c reads s = handle_mysql b.greeting b.denial c reads s
run_handler b ftp c reads s = handle_ftp c reads s
run_handler b redis c reads s = handle_redis c reads s

abbrev pub error_fields : Context → String → Fields
error_fields c text = field "service" (str "error") (
    field "dst_port" (number c.dst_port) (
      field "src_ip" (str c.peer.ip)
        (field "event_type" (str "error") (field "raw" (obj (field "err" (str text) end)) end))))

-- the `except`s of `cb`
unfoldable pub settle : Context → Result Failure (Unit {0}) × Session → Session
settle c (ok u, s) = s
settle c (raise reset, s) = s
settle c (raise broken_pipe, s) = s
settle c (raise (other text), s) = log_event c (error_fields c text) s

abbrev pub new_session : Session
new_session = record { logged = []; sent = [] }

-- `cb`
unfoldable pub serve : Bytes → Handler → Context → List Read → Session
serve b h c reads = settle c (run_handler b h c reads new_session)
