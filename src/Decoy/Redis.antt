-- ===== src/Decoy/Redis.antt =====
-- `handle_redis` of honeypot/extra-services/services.py.
use getarp.Base.Exec.{Result, ok, raise}
use getarp.Base.{
  ℕ, zero, suc, String, ◌==◌, Bool, List, [], ◌∷◌, codes, strip, text_take, if◌then◌else◌,
}
use getarp.Json.{Fields, str, end, field}
use getarp.Decoy.Latin.{upper, contains, words}
use getarp.Decoy.Session.{
  Failure, Read, got, silent, broken, Session, Context, log_event, about, write, after_drain, drain,
}

abbrev pub Ended : Type 0
Ended = Result Failure (Unit {0}) × Session

-- `parts[-1] if parts else ""`
abbrev pub last_text : List String → String
last_text [] = ""
last_text (w ∷ []) = w
last_text (w ∷ ws) = last_text ws

-- `... in upper`
abbrev pub mentions : String → String → Bool
mentions name text = contains (codes name) (upper text)

-- The replacement of "\r\n" by a space changes no word.
abbrev pub auth_fields : String → Fields
auth_fields text = field "password" (str (last_text (words text))) end

abbrev pub command_fields : String → Fields
command_fields text = field "command" (str (text_take 200 (strip text))) end

-- what is logged of a request, and the answer to it
unfoldable pub answer : Context → String → Session → Session
answer c text s =
    if mentions "AUTH" text
    then write "-ERR invalid password\r\n"
        (log_event c (about c "redis" "login_attempt" (auth_fields text)) s)
    else if mentions "PING" text
    then write "+PONG\r\n" s
    else if mentions "INFO" text
    then write "$24\r\nredis_version:7.2.4\r\nrole:master\r\n" s
    else write "+OK\r\n" (log_event c (about c "redis" "command" (command_fields text)) s)

-- the loop, with the rounds that are left
unfoldable pub requests : Context → ℕ → List Read → Session → Ended
requests c zero reads s = (ok tt, s)
requests c (suc n) [] s = (ok tt, s)
requests c (suc n) (silent ∷ reads) s = (ok tt, s)
requests c (suc n) (broken f ∷ reads) s = (raise f, s)
requests c (suc n) (got text ∷ reads) s =
    let s' = answer c text s in
    let rest = requests c n reads s' in
    if text == "" then (ok tt, s) else after_drain (drain c s') (λ late. ok tt) s' rest

-- `handle_redis`
unfoldable pub handle_redis : Context → List Read → Session → Ended
handle_redis c reads s = requests c 6 reads (log_event c (about c "redis" "connect" end) s)
