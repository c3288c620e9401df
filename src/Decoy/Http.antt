-- ===== src/Decoy/Http.antt =====
-- `handle_http` of honeypot/extra-services/services.py. The page that it answers with is fixed.
use getarp.Base.Exec.{Result, ok, raise}
use getarp.Base.{
  String, ◌==◌, List, [], ◌∷◌, codes, strip, text_take, text_append, split_char, or_else,
  if◌then◌else◌,
}
use getarp.Json.{Fields, str, obj, end, field}
use getarp.Decoy.Latin.{lower, starts, split_lines, after_blank}
use getarp.Decoy.Session.{
  Failure, Read, got, silent, broken, Session, Context, log_event, about, write, after_drain, drain,
  uncaught,
}

-- `asyncio.wait_for(reader.read(4096), ...)`, a TimeoutError being nothing read
abbrev pub received : List Read → Result Failure String
received [] = ok ""
received (got text ∷ reads) = ok text
received (silent ∷ reads) = ok ""
received (broken f ∷ reads) = raise f

abbrev first_text : List String → String
first_text [] = ""
first_text (s ∷ ss) = s

abbrev second_text : List String → String
second_text [] = ""
second_text (s ∷ []) = ""
second_text (s ∷ t ∷ ss) = t

abbrev pub request_line : String → String
request_line text = first_text (split_lines text)

-- `split(" ")[0]`
abbrev pub method : String → String
method line = first_text (split_char 32 line)

-- `split(" ")[1]`, where there is a space
abbrev pub path : String → String
path line = second_text (split_char 32 line)

-- what follows the first ":"
unfoldable pub after_colon : String → String
after_colon String.[] = ""
after_colon (String.◌∷◌ c s) =
    let rest = after_colon s in if starts (58 ∷ []) (codes (String.◌∷◌ c s)) then s else rest

-- the loop over the lines: the last such header counts
unfoldable pub user_agent : String → List String → String
user_agent ua [] = ua
user_agent ua (ln ∷ lns) =
    user_agent (if starts (codes "user-agent:") (lower ln) then strip (after_colon ln) else ua) lns

abbrev pub event_type : String → String
event_type method = if method == "POST" then "login_attempt" else "connect"

abbrev pub raw_fields : String → Fields
raw_fields text = field "request_line" (str (request_line text)) (
    field "user_agent" (str (user_agent "" (split_lines text)))
      (field "body" (str (text_take 512 (or_else (after_blank text) ""))) end))

abbrev pub http_fields : String → Fields
http_fields text =
    let line = request_line text in
    field "command" (str (text_append (method line) (text_append " " (path line))))
      (field "raw" (obj (raw_fields text)) end)

-- `handle_http`; `page` is the response
unfoldable pub handle_http :
    String → Context → List Read → Session → Result Failure (Unit {0}) × Session
handle_http page c reads s = elim (received reads) [
  | raise f ↦ (raise f, s)
  | ok text ↦
      let s' = write page (
        log_event c (about c "http" (event_type (method (request_line text))) (http_fields text))
          s) in
      after_drain (drain c s') uncaught s' (ok tt, s')
]
