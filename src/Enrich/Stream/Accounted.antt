-- ===== src/Enrich/Stream/Accounted.antt =====
-- Where the entries of the stream are: to be delivered, pending or acknowledged.
use getarp.Base.Exec.{ok, raise}
use getarp.Base.{
  ℕ, zero, suc, min, String, ◌==◌, eq_iff, str_refl, true, ◌||◌, List, [], ◌∷◌, ◌++◌, take, drop,
  elem, if◌then◌else◌, ◌≡◌, ◌⊎◌, inl, inr, refl, ap, ◌∙◌, arith, Bool-cases, Option-cases,
}
use getarp.Base.Dict.{Dict, get, put, has, get-put, get-remove}
use getarp.Retry.{Clients}
use getarp.Enrich.Worker.{
  Message, World, Circumstances, Run, enrich_one, after_failure, is_forced, handle_message,
  attempt_of,
}
use getarp.Enrich.Worker.Settles.{enrich_one-Untouched, after_failure_acked, ack_acked}
use getarp.Enrich.Stream.{
  State, read_count, put_all, read_group, auto_claim, handled, handle_head, Op, add, read, handle,
  leave, claim, rehandle, give_up, read_if_idle, claim_if_idle, step, run,
}

-- the entry is still to be delivered, or is pending, or was acknowledged
abbrev pub IsAccounted : String → State → Type 0
IsAccounted id s =
    (has s.fresh id ≡ true) ⊎ (has s.pending id ≡ true) ⊎ (elem id s.world.acked ≡ true)

has-append : (d e : Dict Message) (id : String) → has (d ++ e) id ≡ (has d id || has e id)
unfolding get
has-append [] e id = refl
has-append ((j, m) ∷ d) e id = ground (arith, has-append d e id)

has-put_all : (ms d : Dict Message) (id : String) → has (put_all d ms) id ≡ (has d id || has ms id)
unfolding put_all get
has-put_all [] d id = ground arith
has-put_all ((j, m) ∷ ms) d id =
    ground (arith, has-put_all ms (put d j m) id, get-put j m d id, eq_iff j id, eq_iff id j)

has-take-drop :
    (k : ℕ) (d : Dict Message) (id : String) → has d id ≡ (has (drop k d) id || has (take k d) id)
unfolding get
has-take-drop zero d id = ground arith
has-take-drop (suc k) [] id = refl
has-take-drop (suc k) ((j, m) ∷ d) id = ground (arith, has-take-drop k d id)

read_group-IsAccounted :
    (n : ℕ) (id : String) (s : State) → IsAccounted id s → IsAccounted id (read_group n s)
unfolding read_group
read_group-IsAccounted n id s h =
    let k = min n read_count in
    let split = has-take-drop k s.fresh id in
    let more = has-put_all (take k s.fresh) s.pending id in ground arith

-- what a message adds to the acknowledgements
acked-handle_message :
    (cl : Clients) (max ttl : ℕ) (c : Circumstances) (id : String) (m : Message) (w : World)
    → let run = handle_message cl max ttl c id m w in
      ((run.0 ≡ ok tt) × (run.1.acked ≡ (if c.ack_fails then w.acked else id ∷ w.acked)))
      ⊎ ((x : _) × (run.0 ≡ raise x) × (run.1.acked ≡ w.acked))
unfolding handle_message
acked-handle_message cl max ttl c id m w = elim (Option-cases (attempt_of c m)) [
  | inl bad ↦ rw (bad, handle_message) (inr (_, refl, refl))
  | inr (n, good) ↦
      let run = enrich_one ttl c m.src_ip (is_forced m) w in
      let w' = after_failure cl max c n m run in
      let same : w'.acked ≡ w.acked =
        after_failure_acked cl max n c m run
        ∙ (enrich_one-Untouched ttl c m.src_ip (is_forced m) w).1 in
      rw (good, handle_message)
        (inl (refl, ack_acked c id w' ∙ ap (λ l. if c.ack_fails then l else id ∷ l) same))
]

handled-IsAccounted :
    (c : Circumstances) (j : String) (rest : Dict Message) (result : Run) (s : State) (id : String)
    → ((result.0 ≡ ok tt)
        × (result.1.acked ≡ (if c.ack_fails then s.world.acked else j ∷ s.world.acked)))
      ⊎ ((x : _) × (result.0 ≡ raise x) × (result.1.acked ≡ s.world.acked))
    → IsAccounted id s
    → IsAccounted id (handled c j rest result s).1
unfolding handled
handled-IsAccounted c j rest (ok u, w) s id (inl (e, a)) h =
    ground (arith, get-remove j s.pending id, eq_iff id j, eq_iff j id)
handled-IsAccounted c j rest (ok u, w) s id (inr (x, e, a)) h = absurd (ground arith)
handled-IsAccounted c j rest (raise x, w) s id (inl (e, a)) h = absurd (ground arith)
handled-IsAccounted c j rest (raise x, w) s id (inr (y, e, a)) h = ground arith

handle_head-IsAccounted :
    (cl : Clients) (max ttl : ℕ) (c : Circumstances) (batch : Dict Message) (s : State)
    (id : String)
    → IsAccounted id s
    → IsAccounted id (handle_head cl max ttl c batch s).1
unfolding handle_head
handle_head-IsAccounted cl max ttl c [] s id h = h
handle_head-IsAccounted cl max ttl c ((j, m) ∷ rest) s id h =
    handled-IsAccounted c j rest (handle_message cl max ttl c j m s.world) s id
      (acked-handle_message cl max ttl c j m s.world) h

read_if_idle-IsAccounted :
    (n : ℕ) (batch : Dict Message) (id : String) (s : State)
    → IsAccounted id s
    → IsAccounted id (read_if_idle n batch s)
read_if_idle-IsAccounted n [] id s h = read_group-IsAccounted n id s h
read_if_idle-IsAccounted n (e ∷ es) id s h = h

claim_if_idle-IsAccounted :
    (ids : List String) (batch : Dict Message) (id : String) (s : State)
    → IsAccounted id s
    → IsAccounted id (claim_if_idle ids batch s)
unfolding auto_claim
claim_if_idle-IsAccounted ids [] id s h = h
claim_if_idle-IsAccounted ids (e ∷ es) id s h = h

step-IsAccounted :
    (cl : Clients) (max ttl : ℕ) (op : Op) (s : State) (id : String)
    → IsAccounted id s
    → IsAccounted id (step cl max ttl op s)
unfolding step
step-IsAccounted cl max ttl (add j m) s id h = ground (arith, has-append s.fresh ((j, m) ∷ []) id)
step-IsAccounted cl max ttl (read n) s id h = read_if_idle-IsAccounted n s.reading id s h
step-IsAccounted cl max ttl (handle c) s id h =
    handle_head-IsAccounted cl max ttl c s.reading s id h
step-IsAccounted cl max ttl leave s id h = h
step-IsAccounted cl max ttl (claim ids) s id h = claim_if_idle-IsAccounted ids s.reclaiming id s h
step-IsAccounted cl max ttl (rehandle c) s id h =
    handle_head-IsAccounted cl max ttl c s.reclaiming s id h
step-IsAccounted cl max ttl give_up s id h = h

run-IsAccounted :
    (cl : Clients) (max ttl : ℕ) (ops : List Op) (s : State) (id : String)
    → IsAccounted id s
    → IsAccounted id (run cl max ttl ops s)
unfolding run
run-IsAccounted cl max ttl [] s id h = h
run-IsAccounted cl max ttl (op ∷ ops) s id h =
    run-IsAccounted cl max ttl ops (step cl max ttl op s) id (step-IsAccounted cl max ttl op s id h)

-- the entries that are added
abbrev pub added : List Op → List String
added [] = []
added (add id m ∷ ops) = id ∷ added ops
added (_ ∷ ops) = added ops

added-here :
    (cl : Clients) (max ttl : ℕ) (id : String) (m : Message) (s : State)
    → IsAccounted id (step cl max ttl (add id m) s)
unfolding step get
added-here cl max ttl id m s =
    inl (ground (arith, has-append s.fresh ((id, m) ∷ []) id, str_refl id))

-- Whatever the two loops read, claim and handle, in whatever order, whatever fails in between, and
-- wherever either of them ends with entries in hand: each entry that was added to the stream is still to
-- be delivered, or is pending, where it is claimed again, or was acknowledged.
pub run-accounts :
    (cl : Clients) (max ttl : ℕ) (ops : List Op) (s : State) (id : String)
    → elem id (added ops) ≡ true
    → IsAccounted id (run cl max ttl ops s)
unfolding run
run-accounts cl max ttl [] s id h = cc
run-accounts cl max ttl (add j m ∷ ops) s id h = elim (Bool-cases (j == id)) [
  | inl same ↦
      run-IsAccounted cl max ttl ops (step cl max ttl (add j m) s) id
        (rw (← (eq_iff j id).0 same) (added-here cl max ttl j m s))
  | inr other ↦ run-accounts cl max ttl ops (step cl max ttl (add j m) s) id (ground arith)
]
run-accounts cl max ttl (read n ∷ ops) s id h =
    run-accounts cl max ttl ops (step cl max ttl (read n) s) id h
run-accounts cl max ttl (handle c ∷ ops) s id h =
    run-accounts cl max ttl ops (step cl max ttl (handle c) s) id h
run-accounts cl max ttl (leave ∷ ops) s id h =
    run-accounts cl max ttl ops (step cl max ttl leave s) id h
run-accounts cl max ttl (claim ids ∷ ops) s id h =
    run-accounts cl max ttl ops (step cl max ttl (claim ids) s) id h
run-accounts cl max ttl (rehandle c ∷ ops) s id h =
    run-accounts cl max ttl ops (step cl max ttl (rehandle c) s) id h
run-accounts cl max ttl (give_up ∷ ops) s id h =
    run-accounts cl max ttl ops (step cl max ttl give_up s) id h
