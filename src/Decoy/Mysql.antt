-- ===== src/Decoy/Mysql.antt =====
-- `handle_mysql` of honeypot/extra-services/services.py. The greeting and the denial are fixed.
use getarp.Base.Exec.{Result, ok, raise}
use getarp.Base.{String, List, ltb, text_length, text_drop, before_char, if◌then◌else◌}
use getarp.Json.{Fields, str, obj, end, field}
use getarp.Decoy.Session.{
  Failure, Read, Session, Context, number, log_event, about, write, after_drain, drain, uncaught,
}
use getarp.Decoy.Http.{received}

-- the name in a login packet, which ends at a NUL
abbrev pub username : String → String
username login = if ltb 36 (text_length login) then before_char 0 (text_drop 36 login) else ""

abbrev pub note : Fields
note = field "raw" (obj (field "note" (str "fake-db greeting sent") end)) end

abbrev pub login_fields : String → Fields
login_fields login =
    field "username" (str (username login))
      (field "raw" (obj (field "login_len" (number (text_length login)) end)) end)

-- what follows the greeting
unfoldable pub deny :
    String → Context → Result Failure String → Session → Result Failure (Unit {0}) × Session
deny denial c (raise f) s = (raise f, s)
deny denial c (ok login) s =
    let s' = write denial (log_event c (about c "mysql" "login_attempt" (login_fields login)) s) in
    after_drain (drain c s') uncaught s' (ok tt, s')

-- `handle_mysql`; `greeting` and `denial` are the packets that it sends
unfoldable pub handle_mysql :
    String → String → Context → List Read → Session → Result Failure (Unit {0}) × Session
handle_mysql greeting denial c reads s =
    let s' = write greeting (log_event c (about c "mysql" "connect" note) s) in
    after_drain (drain c s') uncaught s' (deny denial c (received reads) s')
