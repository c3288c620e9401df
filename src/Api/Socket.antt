-- ===== src/Api/Socket.antt =====
-- `ws_ticket` and `ws_status` of api/main.py: the tickets in Redis, and the slots for open sockets. A
-- coroutine of `ws_status` stops at each await, so those of several sockets run interleaved; a call
-- that raises ends the coroutine where it stands.
pub mod Counted
pub mod Refuses
use getarp.Base.{
  ℕ, ◌+◌, ◌-◌, String, ◌==◌, Bool, true, false, not, Option, none, some, List, [], ◌∷◌, leb, elem,
  keep, if◌then◌else◌,
}
use getarp.Base.Dict.{Dict, get, put}

-- Where the coroutine of a socket stands: at the DELETE of its ticket; at `ws.accept()`; at the
-- SUBSCRIBE; at the wait for its two tasks; closed with a code; ended by an exception before it had
-- its slot, or while it had it; or at its end.
pub data Phase : Type 0 where
  checked : String → Phase
  accepting subscribing waiting : Phase
  closed : ℕ → Phase
  failed lost finished : Phase

-- `tickets` are the keys `ws:ticket:...`, `connections` is `_ws_connections`
pub record State : Type 0 where
  pub tickets : List String
  pub connections : ℕ
  pub sockets : Dict Phase

-- `WS_MAX_CONNECTIONS`
abbrev pub max_connections : ℕ
max_connections = 200

abbrev pub move : String → Phase → State → State
move id p s = record s { sockets = put s.sockets id p }

-- the test of the limit
unfoldable pub admit : String → State → State
admit id s =
    if leb max_connections s.connections then move id (closed 1013) s else move id accepting s

-- the lookup of the ticket, if there is one
unfoldable pub enter : String → String → State → State
enter id ticket s =
    if ticket == ""
    then admit id s
    else if elem ticket s.tickets
    then move id (checked ticket) s
    else move id (closed 4401) s

-- Does the call that the coroutine waits for succeed? At its end, the call is `pubsub.unsubscribe` or
-- `pubsub.close`, before the slot is given back.
unfoldable pub resume : Bool → String → Phase → State → State
resume true id (checked ticket) s =
    admit id (record s { tickets = keep (λ t. not (t == ticket)) s.tickets })
resume true id accepting s = move id subscribing (record s { connections = s.connections + 1 })
resume true id subscribing s = move id waiting s
resume true id waiting s = move id finished (record s { connections = s.connections - 1 })
resume false id (checked ticket) s = move id failed s
resume false id accepting s = move id failed s
resume false id subscribing s = move id lost s
resume false id waiting s = move id lost s
resume ok id (closed code) s = s
resume ok id failed s = s
resume ok id lost s = s
resume ok id finished s = s

-- What happens: a ticket is issued or expires; a socket comes; or the coroutine of one goes on.
pub data Op : Type 0 where
  issue expire : String → Op
  connect : String → String → Op
  proceed : Bool → String → Op

abbrev connect_new : Option Phase → String → String → State → State
connect_new none id ticket s = enter id ticket s
connect_new (some p) id ticket s = s

abbrev proceed_from : Option Phase → Bool → String → State → State
proceed_from none ok id s = s
proceed_from (some p) ok id s = resume ok id p s

unfoldable pub step : Op → State → State
step (issue ticket) s = record s { tickets = ticket ∷ s.tickets }
step (expire ticket) s = record s { tickets = keep (λ t. not (t == ticket)) s.tickets }
step (connect id ticket) s = connect_new (get s.sockets id) id ticket s
step (proceed ok id) s = proceed_from (get s.sockets id) ok id s

unfoldable pub run : List Op → State → State
run [] s = s
run (op ∷ ops) s = run ops (step op s)
