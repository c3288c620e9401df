-- ===== src/Enrich/Worker.antt =====
-- `enrich_one`, `upsert` and `handle_message` of enrichment/worker.py. Each call to the outside may
-- fail, and then has no effect.
-- A message is handled from its start to its end with nothing of another coroutine in between.
pub mod Settles
pub mod Scores
use getarp.Base.Exec.{Result, ok, raise}
use getarp.Base.Dict.{Dict, get, put}
use getarp.Base.{
  ℕ, ◌+◌, ◌*◌, ◌-◌, max, String, ◌==◌, Bool, true, false, ◌&&◌, not, Option, none, some, List, [],
  ◌∷◌, ◌++◌, ltb, or_else, if◌then◌else◌,
}
use getarp.Retry.{Ex, Clients, plain, value_error, is_transient}
use getarp.Enrich.Record.{Enrichment, as_db}

-- the fields of a stream entry that are read
pub record Message : Type 0 where
  pub src_ip : Option String
  pub force : Option String
  pub attempt : Option String

-- a row of `ip_enrichment`
pub record Cached : Type 0 where
  pub enrichment : Enrichment
  pub updated_at : ℕ

-- `rows` is the table `ip_enrichment`, `scores` the column `ips.threat_score`, `queue` what was added
-- to the stream, `acked` the entries acknowledged.
pub record World : Type 0 where
  pub rows : Dict Cached
  pub scores : Dict ℕ
  pub queue : List Message
  pub acked : List String

-- what the environment does during one message; `parse_ip` is `ipaddress.ip_address`, `int_of` and
-- `str_of` are `int` and `str`
pub record Circumstances : Type 0 where
  pub parse_ip : String → Bool
  pub int_of : String → Option ℕ
  pub str_of : ℕ → String
  pub now : ℕ
  pub fresh_fault : Option Ex
  pub answer : Result Ex Enrichment
  pub upsert_fault : Option Ex
  pub hint_fault : Option Ex
  pub xadd_fails : Bool
  pub ack_fails : Bool

abbrev pub Run : Type 0
Run = Result Ex (Unit {0}) × World

-- `updated_at > now() - make_interval(days => ...)`
unfoldable pub is_fresh : ℕ → ℕ → String → World → Bool
is_fresh ttl_days now ip w = elim (get w.rows ip) [
  | none ↦ false
  | some row ↦ ltb now (row.updated_at + ttl_days * 86400)
]

-- `upsert`
unfoldable pub upsert : ℕ → Enrichment → World → World
upsert now e w =
    let d = as_db e in
    record w { rows = put w.rows d.src_ip (record { enrichment = d; updated_at = now }) }

-- `UPDATE ips SET threat_score = GREATEST(threat_score, 60.0)`
unfoldable pub raise_score : String → World → World
raise_score ip w = elim (get w.scores ip) [
  | none ↦ w
  | some n ↦ record w { scores = put w.scores ip (max n 60) }
]

-- after `upsert`
unfoldable pub hint : Circumstances → String → Enrichment → World → Run
hint c ip e w =
    if e.is_known_attacker
    then elim c.hint_fault [ some ex ↦ (raise ex, w) | none ↦ (ok tt, raise_score ip w) ]
    else (ok tt, w)

-- after the provider answered
unfoldable pub store : Circumstances → String → Enrichment → World → Run
store c ip e w = elim c.upsert_fault [
  | some ex ↦ (raise ex, w)
  | none ↦ hint c ip e (upsert c.now e w)
]

-- the provider's answer
unfoldable pub answered : Circumstances → String → Result Ex Enrichment → World → Run
answered c ip (raise ex) w = (raise ex, w)
answered c ip (ok e) w = store c ip e w

-- `if not force and await is_fresh(...)`
unfoldable pub unless_fresh : ℕ → Circumstances → String → Bool → World → Run
unless_fresh ttl c ip true w = answered c ip c.answer w
unless_fresh ttl c ip false w = elim c.fresh_fault [
  | some ex ↦ (raise ex, w)
  | none ↦ if is_fresh ttl c.now ip w then (ok tt, w) else answered c ip c.answer w
]

-- `enrich_one`
unfoldable pub enrich_one : ℕ → Circumstances → Option String → Bool → World → Run
enrich_one ttl c none force w = (raise (plain value_error "stream message carries no src_ip"), w)
enrich_one ttl c (some ip) force w =
    if ip == ""
    then (raise (plain value_error "stream message carries no src_ip"), w)
    else if c.parse_ip ip
    then unless_fresh ttl c ip force w
    else (raise (plain value_error "does not appear to be an IPv4 or IPv6 address"), w)

-- `int(fields.get("attempt") or 0)`
unfoldable pub attempt_of : Circumstances → Message → Option ℕ
attempt_of c m = elim m.attempt [ none ↦ some 0 | some s ↦ if s == "" then some 0 else c.int_of s ]

-- the entry that goes back to the stream
unfoldable pub requeued : Circumstances → ℕ → Message → Message
requeued c attempt m = record {
  src_ip = some (or_else m.src_ip "None");
  force = some (or_else m.force "0");
  attempt = some (c.str_of (attempt + 1));
}

-- `r.xadd`, its failure suppressed
unfoldable pub add_entry : Circumstances → Message → World → World
add_entry c m w = if c.xadd_fails then w else record w { queue = w.queue ++ m ∷ [] }

-- the `except`
unfoldable pub after_failure : Clients → ℕ → Circumstances → ℕ → Message → Run → World
after_failure cl max c attempt m (ok u, w) = w
after_failure cl max c attempt m (raise ex, w) =
    if is_transient cl ex && ltb (attempt + 1) max then add_entry c (requeued c attempt m) w else w

-- the `finally`
unfoldable pub ack : Circumstances → String → World → World
ack c id w = if c.ack_fails then w else record w { acked = id ∷ w.acked }

abbrev pub is_forced : Message → Bool
is_forced m = or_else m.force "" == "1"

-- `handle_message`; an attempt that is no number raises before anything else
unfoldable pub handle_message : Clients → ℕ → ℕ → Circumstances → String → Message → World → Run
handle_message cl max ttl c id m w = elim (attempt_of c m) [
  | none ↦ (raise (plain value_error "invalid literal for int()"), w)
  | some attempt ↦
      let run = enrich_one ttl c m.src_ip (is_forced m) w in
      (ok tt, ack c id (after_failure cl max c attempt m run))
]
