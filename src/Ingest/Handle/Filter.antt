-- ===== src/Ingest/Handle/Filter.antt =====
-- Which records reach the store.
use getarp.Base.Exec.{Result, ok, raise}
use getarp.Base.{
  String, true, false, Option, none, some, ◌≡◌, ◌⊎◌, refl, arith, Option-cases, inl, inr,
}
use getarp.Json.{Value}
use getarp.Retry.{Ex}
use getarp.Ingest.Event.{Event}
use getarp.Ingest.Normalize.{Sensor, normalize}
use getarp.Ingest.Source.{Address, is_private_src}
use getarp.Ingest.Store.{Store}
use getarp.Ingest.Handle.{Runtime, Attempt, admit, is_self, prepared, deliver, dispatch, handle}

-- an event from outside: its source is an address, not one of the sensor's own and, unless the filter
-- is off, not a private one
pub record IsForeign (rt : Runtime) (e : Event) (addr : Address) : Type 0 where
  pub parsed : rt.parse_ip e.src_ip ≡ some addr
  pub foreign : is_self rt e ≡ false
  pub routable : rt.drop_private_src ≡ true → is_private_src addr ≡ false

admit-IsForeign :
    (rt : Runtime) (e : Event) (addr : Address) → admit rt e ≡ some addr → IsForeign rt e addr
unfolding admit
admit-IsForeign rt e addr h = elim (Option-cases (rt.parse_ip e.src_ip)) [
  | inl miss ↦ absurd (cc (rw (miss, admit) at h))
  | inr (addr', p) ↦
      let h' = rw (p, admit) at h in
      record { parsed = ground arith; foreign = ground arith; routable = λ q. ground arith }
]

deliver_source :
    (rt : Runtime) (a : Attempt) (id : String) (e : Event) (admitted : Option Address) (s : Store)
    → ((deliver rt a id e admitted s).1 ≡ s) ⊎ ((addr : Address) × (admitted ≡ some addr))
unfolding deliver
deliver_source rt a id e none s = inl refl
deliver_source rt a id e (some addr) s = inr (addr, refl)

dispatch_source :
    (rt : Runtime) (a : Attempt) (sensor : Sensor) (r : Value) (n : Result Ex (Option Event))
    (s : Store)
    → ((dispatch rt a sensor r n s).1 ≡ s)
      ⊎ ((e : Event) × (addr : Address) × (n ≡ ok (some e))
          × IsForeign rt (prepared rt sensor r e) addr)
unfolding dispatch
dispatch_source rt a sensor r (raise ex) s = inl refl
dispatch_source rt a sensor r (ok none) s = inl refl
dispatch_source rt a sensor r (ok (some e)) s =
    let p = prepared rt sensor r e in
    elim (deliver_source rt a (rt.event_id sensor r) p (admit rt p) s) [
      | inl same ↦ inl same
      | inr (addr, h) ↦ inr (e, addr, refl, admit-IsForeign rt p addr h)
    ]

-- A record changes the store only if its normalizer accepts it and its source is an address that is
-- not the sensor's own and, unless the filter is off, not private; any other record leaves no trace.
pub handle_source :
    (rt : Runtime) (a : Attempt) (sensor : Sensor) (r : Value) (s : Store)
    → ((handle rt a sensor r s).1 ≡ s)
      ⊎ ((e : Event) × (addr : Address) × (normalize rt.to_text rt.fresh_id sensor r ≡ ok (some e))
          × IsForeign rt (prepared rt sensor r e) addr)
unfolding handle
handle_source rt a sensor r s =
    dispatch_source rt a sensor r (normalize rt.to_text rt.fresh_id sensor r) s
