-- ===== src/Ingest/Handle/Replay.antt =====
-- Reading a line again, where the time of its event is its own: the key of its row is then the same.
use getarp.Base.Exec.{Result, ok, raise}
use getarp.Base.{
  ℕ, String, Bool, true, Option, none, some, List, [], ◌∷◌, ◌≡◌, refl, sym, ◌∙◌, arith, str_refl,
  Bool-cases, Option-cases, inl, inr,
}
use getarp.Json.{Value}
use getarp.Retry.{Ex}
use getarp.Ingest.Event.{Event}
use getarp.Ingest.Normalize.{Sensor, normalize}
use getarp.Ingest.Source.{Address}
use getarp.Ingest.Store.{Row, Store, has_row}
use getarp.Ingest.Handle.{
  Runtime, Attempt, parse_ts, publish, count, insert, store_row, write, admit, prepared, deliver,
  dispatch, handle,
}

module _ (rt : Runtime) (a : Attempt) (e : Event) where
  publish-rows : (is_new : Bool) (s : Store) → (publish rt a e is_new s).1.rows ≡ s.rows
  unfolding publish
  publish-rows is_new s = ground arith

  pub count-rows : (addr : Address) (s : Store) → (count rt a e addr s).1.rows ≡ s.rows
  unfolding count
  count-rows addr s = elim (Option-cases a.upsert_fault) [
    | inl well ↦ rw (well, count) (publish-rows _ _)
    | inr (ex, bad) ↦ rw (bad, count)
  ]

  same_key_has : (row : Row) (rows : List Row) → has_row row (row ∷ rows) ≡ true
  unfolding has_row
  same_key_has row rows = ground (arith, str_refl row.event_id)

  -- Once the INSERT has not failed the row is there.
  insert_stores :
      (addr : Address) (row : Row) (s : Store)
      → a.insert_fault ≡ none
      → has_row row (insert rt a e addr row s).1.rows ≡ true
  unfolding insert
  insert_stores addr row s h = elim (Bool-cases (has_row row s.rows)) [
    | inl old ↦ rw (h, old, insert) old
    | inr new ↦ rw (h, new, insert, count-rows) (same_key_has row s.rows)
  ]

  pub insert_again :
      (addr : Address) (row : Row) (s : Store)
      → has_row row s.rows ≡ true
      → (insert rt a e addr row s).1 ≡ s
  unfolding insert
  insert_again addr row s h = ground arith

-- the columns of the row are those that the event gives, whatever the time
abbrev pub row_of : Runtime → Attempt → String → Event → Value → Value → Row
row_of rt a id e pw raw = record {
  event_id = id;
  ts = parse_ts rt.parse_iso a.now e.ts;
  event = e;
  password = pw;
  raw = raw;
}

has_row_key :
    (r r' : Row) (rows : List Row)
    → r.event_id ≡ r'.event_id
    → r.ts ≡ r'.ts
    → has_row r rows ≡ has_row r' rows
unfolding has_row
has_row_key r r' [] h k = refl
has_row_key r r' (x ∷ rows) h k = rw (h, k, has_row_key r r' rows h k)

store_again :
    (rt : Runtime) (a b : Attempt) (id : String) (e : Event) (addr : Address)
    (pw raw : Result Ex Value) (s : Store)
    → a.insert_fault ≡ none
    → parse_ts rt.parse_iso a.now e.ts ≡ parse_ts rt.parse_iso b.now e.ts
    → (store_row rt b id e addr pw raw (store_row rt a id e addr pw raw s).1).1
      ≡ (store_row rt a id e addr pw raw s).1
unfolding store_row
store_again rt a b id e addr (raise ex) raw s h t = refl
store_again rt a b id e addr (ok pw) (raise ex) s h t = refl
store_again rt a b id e addr (ok pw) (ok raw) s h t =
    let r = row_of rt a id e pw raw in
    let r' = row_of rt b id e pw raw in
    insert_again rt b e addr r' (insert rt a e addr r s).1
      (has_row_key r' r _ refl (sym t) ∙ insert_stores rt a e addr r s h)

-- the event's time does not depend on when the record is read
abbrev pub IsTimed : Runtime → Sensor → Value → Type 0
IsTimed rt sensor r =
    (e : Event)
    → normalize rt.to_text rt.fresh_id sensor r ≡ ok (some e)
    → (now now' : ℕ)
    → parse_ts rt.parse_iso now (prepared rt sensor r e).ts
      ≡ parse_ts rt.parse_iso now' (prepared rt sensor r e).ts

dispatch_again :
    (rt : Runtime) (a b : Attempt) (sensor : Sensor) (r : Value) (n : Result Ex (Option Event))
    (s : Store)
    → a.insert_fault ≡ none
    → ((e : Event)
        → n ≡ ok (some e)
        → (now now' : ℕ)
        → parse_ts rt.parse_iso now (prepared rt sensor r e).ts
          ≡ parse_ts rt.parse_iso now' (prepared rt sensor r e).ts)
    → (dispatch rt b sensor r n (dispatch rt a sensor r n s).1).1 ≡ (dispatch rt a sensor r n s).1
unfolding dispatch deliver write
dispatch_again rt a b sensor r (raise ex) s h t = refl
dispatch_again rt a b sensor r (ok none) s h t = refl
dispatch_again rt a b sensor r (ok (some e)) s h t =
    let p = prepared rt sensor r e in
    elim (Option-cases (admit rt p)) [
      | inl q ↦ rw (q, deliver)
      | inr (addr, q) ↦
          rw (q, deliver)
            (store_again rt a b (rt.event_id sensor r) p addr _ _ s h (t e refl a.now b.now))
    ]

-- If the time of a record's event does not depend on when the record is read, then once its INSERT has
-- not failed, handling it again changes nothing: no row, no count, no message is added, whatever else
-- failed the first time and whatever fails now.
pub handle_again :
    (rt : Runtime) (a b : Attempt) (sensor : Sensor) (r : Value) (s : Store)
    → IsTimed rt sensor r
    → a.insert_fault ≡ none
    → (handle rt b sensor r (handle rt a sensor r s).1).1 ≡ (handle rt a sensor r s).1
unfolding handle
handle_again rt a b sensor r s t h =
    dispatch_again rt a b sensor r (normalize rt.to_text rt.fresh_id sensor r) s h t
