-- ===== src/Examples/Connecting.antt =====
-- Sockets of the dashboard that come, wait and break.
use getarp.Base.{
  ℕ, zero, suc, String, true, false, some, List, [], ◌∷◌, text_append, ◌≡◌, refl, arith,
}
use getarp.Base.Dict.{Dict, get, put}
use getarp.Api.Socket.{
  Phase, accepting, lost, waiting, closed, State, admit, enter, resume, Op, issue, connect, proceed,
  step, run,
}
use getarp.Api.Socket.Counted.{tally}
use getarp.Api.Socket.Refuses.{run_refuses}

abbrev idle : State
idle = record { tickets = []; connections = 0; sockets = [] }

-- one socket with a ticket that stays, and one whose subscription fails
abbrev ops : List Op
ops =
    issue "t"
    ∷ connect "a" "t"
    ∷ connect "b" ""
    ∷ proceed true "b"
    ∷ proceed true "a"
    ∷ proceed true "a"
    ∷ proceed false "b"
    ∷ proceed true "a"
    ∷ []

both_sockets : (run ops idle).sockets ≡ ("a", waiting) ∷ ("b", lost) ∷ []
unfolding run step enter admit resume get put
both_sockets = refl

-- two sockets with the same ticket, both looked up before either has deleted it
ticket_twice :
    (run
      (issue "t" ∷ connect "a" "t" ∷ connect "b" "t" ∷ proceed true "a" ∷ proceed true "b" ∷ [])
      idle).sockets
    ≡ ("a", accepting) ∷ ("b", accepting) ∷ []
unfolding run step enter admit resume get put
ticket_twice = refl

abbrev strokes : ℕ → String
strokes zero = ""
strokes (suc n) = text_append "|" (strokes n)

abbrev lost_sockets : ℕ → Dict Phase
lost_sockets zero = []
lost_sockets (suc n) = (strokes n, lost) ∷ lost_sockets n

abbrev worn : State
worn = record { tickets = []; connections = 200; sockets = lost_sockets 200 }

run_refuses_example : get (step (connect "new" "") (run [] worn)).sockets "new" ≡ some (closed 1013)
unfolding tally get run text_append
run_refuses_example = run_refuses [] worn "new" refl (omega arith) refl
