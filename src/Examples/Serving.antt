-- ===== src/Examples/Serving.antt =====
-- Requests to the API.
use getarp.Base.Dict.{get, put}
use getarp.Base.Int.{pos}
use getarp.Base.{
  List, ℕ, ◌+◌, String, ◌==◌, true, false, Option, none, some, [], ◌∷◌, split_char, strip,
  if◌then◌else◌, ◌≡◌, refl, arith,
}
use getarp.Json.{Fields, int, str, field, end}
use getarp.Api.Settings.{are_detectors}
use getarp.Api.Settings.Valid.{IsValidTable, put_settings, put_settings-IsValidTable}
use getarp.Ingest.Source.{Address, Network, ipv4}
use getarp.Api.Login
use getarp.Flight.{pick}
use getarp.Api.Login.Lockout.{guesses}
use getarp.Api.Access
use getarp.Api.Access.{
  Claims, Accounts, User, unauthorized, extract_token, validate, current_user, check_admin,
  require_admin, logout,
}
use getarp.Api.Access.Admin.{Entitled, require_admin-Entitled}

abbrev proxy_net : Network
proxy_net = record { version = 4; number = ipv4 172 20 0 0; host_bits = 16 }

abbrev parse : String → Option Address
parse s =
    if s == "172.20.0.2"
    then some (record { version = 4; number = ipv4 172 20 0 2 })
    else if s == "203.0.113.9"
    then some (record { version = 4; number = ipv4 203 0 113 9 })
    else none

abbrev wrong : ℕ → Login.Request
wrong now = record { ip = "203.0.113.9"; good = false; now = now; checked = now + 1 }

abbrev logins : Login.Logins
logins = record { fails = ("203.0.113.9", record { count = 4; expires = 900 }) ∷ []; checking = [] }

-- the second request looks at the count before the first has failed
abbrev racing : List Login.Op
racing = Login.begin (wrong 11) ∷ Login.begin (wrong 11) ∷ Login.finish 0 ∷ Login.finish 0 ∷ []

both_checked : guesses "203.0.113.9" racing logins ≡ 2
unfolding guesses Login.step Login.look_up Login.respond pick get put
both_checked = refl

abbrev claims : Claims
claims = record { sub = "ops"; jti = "j1"; csrf = "c1" }

abbrev accounts : Accounts
accounts = record { roles = ("ops", "admin") ∷ []; revoked = "j0" ∷ [] }

abbrev saving : Access.Request
saving = record { cookie = "token"; bearer = none; method = "PUT"; csrf_header = "c1" }

abbrev ops : User
ops = record { username = "ops"; role = "admin"; jti = "j1"; csrf = "c1" }

require_admin-Entitled_example :
    (c : Claims) × (t : String) × Entitled (λ s. some claims) accounts saving ops c t
unfolding require_admin current_user extract_token validate check_admin get
require_admin-Entitled_example = require_admin-Entitled (λ s. some claims) accounts saving ops refl

abbrev evidence : Fields
evidence = field "command" (str "uname -a") (field "count" (int (pos 3)) end)

put_settings-IsValidTable_example : IsValidTable (
    put_settings
      (("scan_port_threshold", int (pos 0)) ∷ ("enabled_detectors", str "scan, attack") ∷ [])
      [])
unfolding get
put_settings-IsValidTable_example =
    put_settings-IsValidTable
      (("scan_port_threshold", int (pos 0)) ∷ ("enabled_detectors", str "scan, attack") ∷ []) []
      (λ key v h. ground arith)

two_detectors : are_detectors (str "scan, attack") ≡ true
unfolding split_char strip
two_detectors = refl
