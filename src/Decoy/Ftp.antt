-- ===== src/Decoy/Ftp.antt =====
-- `handle_ftp` of honeypot/extra-services/services.py.
use getarp.Base.Exec.{Result, ok, raise}
use getarp.Base.{
  ℕ, zero, suc, String, ◌==◌, Bool, ◌&&◌, List, [], ◌∷◌, codes, strip, text_drop, if◌then◌else◌,
}
use getarp.Json.{Fields, str, end, field}
use getarp.Decoy.Latin.{upper, starts}
use getarp.Decoy.Session.{
  Failure, Read, got, silent, broken, Session, Context, log_event, about, write, after_drain, drain,
  uncaught,
}

-- `user` and `passwd` with what was sent, at the end of the loop or at an exception other than a
-- TimeoutError
abbrev pub Dialog : Type 0
Dialog = Result Failure (String × String) × Session

-- `cmd.upper().startswith(...)`
abbrev pub is_command : String → String → Bool
is_command name cmd = starts (codes name) (upper cmd)

-- the loop, with the rounds that are left
unfoldable pub dialog : Context → ℕ → List Read → String → String → Session → Dialog
dialog c zero reads user passwd s = (ok (user, passwd), s)
dialog c (suc n) [] user passwd s = (ok (user, passwd), s)
dialog c (suc n) (silent ∷ reads) user passwd s = (ok (user, passwd), s)
dialog c (suc n) (broken f ∷ reads) user passwd s = (raise f, s)
dialog c (suc n) (got line ∷ reads) user passwd s =
    let cmd = strip line in
    let asked = write "331 Please specify the password.\r\n" s in
    let denied = write "530 Login incorrect.\r\n" s in
    let told = write "530 Please login with USER and PASS.\r\n" s in
    let named = dialog c n reads (text_drop 5 cmd) passwd asked in
    let unknown = dialog c n reads user passwd told in
    if line == ""
    then (ok (user, passwd), s)
    else if is_command "USER" cmd
    then after_drain (drain c asked) (λ late. ok (text_drop 5 cmd, passwd)) asked named
    else if is_command "PASS" cmd
    then after_drain (drain c denied) (λ late. ok (user, text_drop 5 cmd)) denied
        (ok (user, text_drop 5 cmd), denied)
    else after_drain (drain c told) (λ late. ok (user, passwd)) told unknown

abbrev pub credentials : String → String → Fields
credentials user passwd = field "username" (str user) (field "password" (str passwd) end)

-- the end of the handler
unfoldable pub log_login : Context → Dialog → Result Failure (Unit {0}) × Session
log_login c (raise f, s) = (raise f, s)
log_login c (ok (user, passwd), s) =
    if user == "" && passwd == ""
    then (ok tt, s)
    else (ok tt, log_event c (about c "ftp" "login_attempt" (credentials user passwd)) s)

-- `handle_ftp`
unfoldable pub handle_ftp : Context → List Read → Session → Result Failure (Unit {0}) × Session
handle_ftp c reads s =
    let s' = write "220 (vsFTPd 3.0.5)\r\n" (log_event c (about c "ftp" "connect" end) s) in
    after_drain (drain c s') uncaught s' (log_login c (dialog c 4 reads "" "" s'))
