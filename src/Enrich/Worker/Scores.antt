-- ===== src/Enrich/Worker/Scores.antt =====
-- The threat score that the worker feeds back to `ips`.
use getarp.Base.Exec.{Result, ok, raise}
use getarp.Base.Dict.{get, get-put}
use getarp.Base.{
  ℕ, ◌≤◌, max, String, eq_iff, Bool, true, false, Option, none, some, or_else, is_some, ◌≡◌, inl,
  inr, refl, arith, Option-cases,
}
use getarp.Retry.{Ex, Clients}
use getarp.Enrich.Record.{Enrichment}
use getarp.Enrich.Worker.{
  Message, World, Circumstances, Run, upsert, raise_score, hint, store, answered, unless_fresh,
  enrich_one, attempt_of, add_entry, after_failure, ack, is_forced, handle_message,
}

-- `threat_score` of an address, 0 where it has no row
abbrev pub score : World → String → ℕ
score w j = or_else (get w.scores j) 0

-- no score is lower, and no row of `ips` is new
abbrev pub Raised : World → World → Type 0
Raised w w' =
    (j : String) → (score w j ≤ score w' j) × (is_some (get w'.scores j) ≡ is_some (get w.scores j))

raise_score-Raised : (ip : String) (w : World) → Raised w (raise_score ip w)
unfolding raise_score
raise_score-Raised ip w j = elim (Option-cases (get w.scores ip)) [
  | inl e ↦ rw (e, raise_score) (omega arith, refl)
  | inr (n, e) ↦ rw (e, raise_score) (ground (arith, get-put ip (max n 60) w.scores j, eq_iff j ip))
]

hint-Raised :
    (c : Circumstances) (ip : String) (e : Enrichment) (w : World) → Raised w (hint c ip e w).1
unfolding hint
hint-Raised c ip e w j = ground (arith, raise_score-Raised ip w j)

store-Raised :
    (c : Circumstances) (ip : String) (e : Enrichment) (w : World) → Raised w (store c ip e w).1
unfolding store upsert
store-Raised c ip e w j = ground (arith, hint-Raised c ip e (upsert c.now e w) j)

answered-Raised :
    (c : Circumstances) (ip : String) (r : Result Ex Enrichment) (w : World)
    → Raised w (answered c ip r w).1
unfolding answered
answered-Raised c ip (raise ex) w j = (omega arith, refl)
answered-Raised c ip (ok e) w j = store-Raised c ip e w j

unless_fresh-Raised :
    (ttl : ℕ) (c : Circumstances) (ip : String) (force : Bool) (w : World)
    → Raised w (unless_fresh ttl c ip force w).1
unfolding unless_fresh
unless_fresh-Raised ttl c ip true w j = answered-Raised c ip c.answer w j
unless_fresh-Raised ttl c ip false w j = ground (arith, answered-Raised c ip c.answer w j)

enrich_one-Raised :
    (ttl : ℕ) (c : Circumstances) (o : Option String) (force : Bool) (w : World)
    → Raised w (enrich_one ttl c o force w).1
unfolding enrich_one
enrich_one-Raised ttl c none force w j = (omega arith, refl)
enrich_one-Raised ttl c (some ip) force w j = ground (arith, unless_fresh-Raised ttl c ip force w j)

finish_scores :
    (cl : Clients) (max n : ℕ) (c : Circumstances) (id : String) (m : Message) (run : Run)
    → (ack c id (after_failure cl max c n m run)).scores ≡ run.1.scores
unfolding ack after_failure add_entry
finish_scores cl max n c id m (ok u, v) = ground arith
finish_scores cl max n c id m (raise ex, v) = ground arith

-- Enrichment only adds suspicion: whatever an entry of the stream says and whichever calls fail, no
-- threat score falls, and no address gains or loses its row.
pub handle_message-Raised :
    (cl : Clients) (max ttl : ℕ) (c : Circumstances) (id : String) (m : Message) (w : World)
    → Raised w (handle_message cl max ttl c id m w).1
unfolding handle_message
handle_message-Raised cl max ttl c id m w j = elim (Option-cases (attempt_of c m)) [
  | inl e ↦ rw (e, handle_message) (omega arith, refl)
  | inr (n, e) ↦
      rw (e, handle_message)
        (let run = enrich_one ttl c m.src_ip (is_forced m) w in
          rw (finish_scores cl max n c id m run)
            (enrich_one-Raised ttl c m.src_ip (is_forced m) w j))
]
