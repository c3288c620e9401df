-- ===== src/Enrich/Stream.antt =====
-- The loops `consume` and `reclaim_loop` of enrichment/worker.py over the stream and its consumer group:
-- what is not delivered yet, what is pending, and what each loop has in hand. Redis moves an entry to the
-- pending list when it delivers it, and off it when it is acknowledged.
pub mod Accounted
use getarp.Base.Exec.{Result, ok, raise}
use getarp.Base.{
  ℕ, min, String, ◌==◌, Bool, true, false, List, [], ◌∷◌, ◌++◌, take, drop, elem, keep,
  if◌then◌else◌,
}
use getarp.Base.Dict.{Dict, put, remove}
use getarp.Retry.{Clients}
use getarp.Enrich.Worker.{Message, World, Circumstances, Run, handle_message}

pub record State : Type 0 where
  pub fresh : Dict Message
  pub pending : Dict Message
  pub reading : Dict Message
  pub reclaiming : Dict Message
  pub world : World

-- `count=20` and `count=50`
abbrev pub read_count : ℕ
read_count = 20

abbrev pub claim_count : ℕ
claim_count = 50

unfoldable pub put_all : Dict Message → Dict Message → Dict Message
put_all d [] = d
put_all d ((id, m) ∷ ms) = put_all (put d id m) ms

-- `r.xreadgroup(...)` with `">"`, where `n` entries are there
unfoldable pub read_group : ℕ → State → State
read_group n s =
    let k = min n read_count in
    let got = take k s.fresh in
    record s { fresh = drop k s.fresh; pending = put_all s.pending got; reading = got }

-- `r.xautoclaim(...)`, where the entries `ids` are idle for long enough
unfoldable pub auto_claim : List String → State → State
auto_claim ids s = record s { reclaiming = take claim_count (keep (λ e. elem e.0 ids) s.pending) }

-- the acknowledgement, seen by the group
abbrev pub settle : Circumstances → String → Dict Message → Dict Message
settle c id pending = if c.ack_fails then pending else remove pending id

-- after `handle_message`: what is left of the batch, where an exception ends the loop over it
unfoldable pub handled : Circumstances → String → Dict Message → Run → State → Dict Message × State
handled c id rest (ok u, w) s = (rest, record s { world = w; pending = settle c id s.pending })
handled c id rest (raise ex, w) s = ([], record s { world = w })

-- one round of a loop over a batch
unfoldable pub handle_head :
    Clients → ℕ → ℕ → Circumstances → Dict Message → State → Dict Message × State
handle_head cl max ttl c [] s = ([], s)
handle_head cl max ttl c ((id, m) ∷ rest) s =
    handled c id rest (handle_message cl max ttl c id m s.world) s

-- What happens. `leave` is `consume` that returns or dies, with whatever it has in hand; `give_up` the
-- same for `reclaim_loop`.
pub data Op : Type 0 where
  add : String → Message → Op
  read : ℕ → Op
  handle : Circumstances → Op
  leave : Op
  claim : List String → Op
  rehandle : Circumstances → Op
  give_up : Op

-- a loop asks for more when it has nothing in hand
abbrev pub read_if_idle : ℕ → Dict Message → State → State
read_if_idle n [] s = read_group n s
read_if_idle n (e ∷ es) s = s

abbrev pub claim_if_idle : List String → Dict Message → State → State
claim_if_idle ids [] s = auto_claim ids s
claim_if_idle ids (e ∷ es) s = s

unfoldable pub step : Clients → ℕ → ℕ → Op → State → State
step cl max ttl (add id m) s = record s { fresh = s.fresh ++ (id, m) ∷ [] }
step cl max ttl (read n) s = read_if_idle n s.reading s
step cl max ttl (handle c) s =
    let (rest, s') = handle_head cl max ttl c s.reading s in record s' { reading = rest }
step cl max ttl leave s = record s { reading = [] }
step cl max ttl (claim ids) s = claim_if_idle ids s.reclaiming s
step cl max ttl (rehandle c) s =
    let (rest, s') = handle_head cl max ttl c s.reclaiming s in record s' { reclaiming = rest }
step cl max ttl give_up s = record s { reclaiming = [] }

unfoldable pub run : Clients → ℕ → ℕ → List Op → State → State
run cl max ttl [] s = s
run cl max ttl (op ∷ ops) s = run cl max ttl ops (step cl max ttl op s)
