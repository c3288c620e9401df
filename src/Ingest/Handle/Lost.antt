-- ===== src/Ingest/Handle/Lost.antt =====
-- A record whose row was written and whose publication failed.
use getarp.Base.Exec.{ok}
use getarp.Base.{ℕ, ◌≤◌, false, none, some, ◌∷◌, ◌≡◌, ◌⊎◌, refl, Option-cases, inl, inr}
use getarp.Json.{Value}
use getarp.Retry.{Ex, Clients}
use getarp.Ingest.Event.{Event}
use getarp.Ingest.Normalize.{Sensor, normalize}
use getarp.Ingest.Source.{Address}
use getarp.Ingest.Redact.{redact_password, redact_raw}
use getarp.Ingest.Store.{Row, Store, has_row}
use getarp.Ingest.Handle.{
  Runtime, Attempt, publish, count, insert, store_row, write, admit, prepared, deliver, dispatch,
  handle, consume_one,
}
use getarp.Ingest.Handle.Replay.{IsTimed, row_of, count-rows}
use getarp.Ingest.Handle.Attempts.{consume_one_settled}

-- the record passes the normalizer, the filters and both redactions
pub record Reaches (rt : Runtime) (sensor : Sensor) (r : Value) (e : Event) (addr : Address)
    (pw raw : Value) : Type 0 where
  pub normal : normalize rt.to_text rt.fresh_id sensor r ≡ ok (some e)
  pub admitted : admit rt (prepared rt sensor r e) ≡ some addr
  pub hidden : redact_password (prepared rt sensor r e).password ≡ ok pw
  pub scrubbed : redact_raw (prepared rt sensor r e).raw ≡ ok raw

-- the row of such a record
abbrev pub row_for : Runtime → Attempt → Sensor → Value → Event → Value → Value → Row
row_for rt a sensor r e pw raw = row_of rt a (rt.event_id sensor r) (prepared rt sensor r e) pw raw

pub handle-Reaches :
    (rt : Runtime) (a : Attempt) (sensor : Sensor) (r : Value) (e : Event) (addr : Address)
    (pw raw : Value) (s : Store)
    → Reaches rt sensor r e addr pw raw
    → handle rt a sensor r s
      ≡ insert rt a (prepared rt sensor r e) addr (row_for rt a sensor r e pw raw) s
unfolding handle dispatch deliver write store_row
handle-Reaches rt a sensor r e addr pw raw s h =
    rw (h.normal, dispatch, h.admitted, deliver, h.hidden, h.scrubbed, store_row)

-- the message about the event was not sent: the upsert or the first XADD failed
abbrev pub IsCut : Attempt → Type 0
IsCut a = ((ex : Ex) × (a.upsert_fault ≡ some ex)) ⊎ ((ex : Ex) × (a.bus_fault ≡ some ex))

count_cut :
    (rt : Runtime) (a : Attempt) (e : Event) (addr : Address) (s : Store)
    → IsCut a
    → ((count rt a e addr s).1.bus ≡ s.bus) × ((count rt a e addr s).1.queue ≡ s.queue)
unfolding count publish
count_cut rt a e addr s (inl (ex, h)) = rw (h, count) (refl, refl)
count_cut rt a e addr s (inr (ex, h)) = elim (Option-cases a.upsert_fault) [
  | inl well ↦ rw (well, count, h, publish) (refl, refl)
  | inr (ex', bad) ↦ rw (bad, count) (refl, refl)
]

-- A record whose event has a time of its own, which does not depend on when it is read, whose row went
-- in at the first attempt, and whose upsert or whose message to the bus then failed, is not published
-- by any retry: whatever the later attempts meet, the loop ends with that one row more in the table, and
-- with the bus and the enrichment queue as they were.
pub consume_one_lost :
    (cl : Clients) (rt : Runtime) (at : ℕ → Attempt) (max : ℕ) (sensor : Sensor) (r : Value)
    (e : Event) (addr : Address) (pw raw : Value) (s : Store)
    → 1 ≤ max
    → IsTimed rt sensor r
    → Reaches rt sensor r e addr pw raw
    → has_row (row_for rt (at 1) sensor r e pw raw) s.rows ≡ false
    → (at 1).insert_fault ≡ none
    → IsCut (at 1)
    → ((consume_one cl rt at max sensor r s).1.rows ≡ row_for rt (at 1) sensor r e pw raw ∷ s.rows)
      × ((consume_one cl rt at max sensor r s).1.bus ≡ s.bus)
      × ((consume_one cl rt at max sensor r s).1.queue ≡ s.queue)
unfolding insert
consume_one_lost cl rt at max sensor r e addr pw raw s m t h new well cut =
    let row = row_for rt (at 1) sensor r e pw raw in
    let s' : Store = record s { rows = row ∷ s.rows } in
    let p = prepared rt sensor r e in
    let (bus, queue) = count_cut rt (at 1) p addr s' cut in
    rw
      (
        consume_one_settled cl rt at max sensor r s m t well,
        handle-Reaches rt (at 1) sensor r e addr pw raw s h,
        well,
        new,
        insert,
      )
      (count-rows rt (at 1) p addr s', bus, queue)
