-- ===== src/Enrich/Worker/Settles.antt =====
-- What becomes of an entry of the enrichment stream.
use getarp.Base.Exec.{Result, ok, raise}
use getarp.Base.{
  ℕ, ◌+◌, ◌≤◌, ◌<◌, String, ◌==◌, Bool, true, false, Option, none, some, [], ◌∷◌, ◌++◌, or_else,
  if◌then◌else◌, ◌≡◌, ◌⊎◌, refl, arith,
}
use getarp.Retry.{Ex, Clients, is_transient}
use getarp.Enrich.Record.{Enrichment}
use getarp.Enrich.Worker.{
  Message, World, Circumstances, Run, upsert, raise_score, hint, store, answered, unless_fresh,
  enrich_one, attempt_of, add_entry, after_failure, ack,
}

-- the stream and the acknowledgements are as they were
abbrev pub Untouched : World → World → Type 0
Untouched w w' = (w'.queue ≡ w.queue) × (w'.acked ≡ w.acked)

raise_score-Untouched : (ip : String) (w : World) → Untouched w (raise_score ip w)
unfolding raise_score
raise_score-Untouched ip w = ground arith

hint-Untouched :
    (c : Circumstances) (ip : String) (e : Enrichment) (w : World) → Untouched w (hint c ip e w).1
unfolding hint
hint-Untouched c ip e w = ground (arith, raise_score-Untouched ip w)

store-Untouched :
    (c : Circumstances) (ip : String) (e : Enrichment) (w : World) → Untouched w (store c ip e w).1
unfolding store upsert
store-Untouched c ip e w = ground (arith, hint-Untouched c ip e (upsert c.now e w))

answered-Untouched :
    (c : Circumstances) (ip : String) (r : Result Ex Enrichment) (w : World)
    → Untouched w (answered c ip r w).1
unfolding answered
answered-Untouched c ip (raise ex) w = (refl, refl)
answered-Untouched c ip (ok e) w = store-Untouched c ip e w

unless_fresh-Untouched :
    (ttl : ℕ) (c : Circumstances) (ip : String) (force : Bool) (w : World)
    → Untouched w (unless_fresh ttl c ip force w).1
unfolding unless_fresh
unless_fresh-Untouched ttl c ip true w = answered-Untouched c ip c.answer w
unless_fresh-Untouched ttl c ip false w = ground (arith, answered-Untouched c ip c.answer w)

pub enrich_one-Untouched :
    (ttl : ℕ) (c : Circumstances) (o : Option String) (force : Bool) (w : World)
    → Untouched w (enrich_one ttl c o force w).1
unfolding enrich_one
enrich_one-Untouched ttl c none force w = (refl, refl)
enrich_one-Untouched ttl c (some ip) force w =
    ground (arith, unless_fresh-Untouched ttl c ip force w)

-- `int` reads back what `str` writes
pub record IsNumeral (c : Circumstances) : Type 0 where
  pub filled : (n : ℕ) → (c.str_of n == "") ≡ false
  pub read : (n : ℕ) → c.int_of (c.str_of n) ≡ some n

-- the same request as `m`, with an attempt number that reads as `k`: its address, and its `force`, which
-- is "0" where there was none
pub record IsRetryOf (c : Circumstances) (m : Message) (k : ℕ) (m' : Message) : Type 0 where
  pub address : m'.src_ip ≡ some (or_else m.src_ip "None")
  pub forced : m'.force ≡ some (or_else m.force "0")
  pub next : attempt_of c m' ≡ some k

-- what became of an entry `m` whose attempt number is `n`
pub data Settled (cl : Clients) (max n : ℕ) (c : Circumstances) (m : Message) (run : Run)
    (w w' : World) : Type 0 where
  enriched : run.0 ≡ ok tt → w'.queue ≡ w.queue → Settled cl max n c m run w w'
  back :
      (ex : Ex) (m' : Message)
      → run.0 ≡ raise ex
      → is_transient cl ex ≡ true
      → n + 1 < max
      → IsRetryOf c m (n + 1) m'
      → w'.queue ≡ (w.queue ++ m' ∷ [])
      → Settled cl max n c m run w w'
  given_up :
      (ex : Ex)
      → run.0 ≡ raise ex
      → (is_transient cl ex ≡ false) ⊎ (max ≤ n + 1) ⊎ (c.xadd_fails ≡ true)
      → w'.queue ≡ w.queue
      → Settled cl max n c m run w w'

pub after_failure_acked :
    (cl : Clients) (max n : ℕ) (c : Circumstances) (m : Message) (run : Run)
    → (after_failure cl max c n m run).acked ≡ run.1.acked
unfolding after_failure add_entry
after_failure_acked cl max n c m (ok u, v) = refl
after_failure_acked cl max n c m (raise ex, v) = ground arith

pub ack_acked :
    (c : Circumstances) (id : String) (w : World)
    → (ack c id w).acked ≡ (if c.ack_fails then w.acked else id ∷ w.acked)
unfolding ack
ack_acked c id w = ground arith
