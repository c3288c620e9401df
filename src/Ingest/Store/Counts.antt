-- ===== src/Ingest/Store/Counts.antt =====
-- How the per-IP counts and arrays move under `_upsert_ip`.
use getarp.Base.Int.{ℤ}
use getarp.Base.{
  ℕ, ◌+◌, ◌≤◌, String, Option, none, some, List, [], ◌∷◌, ◌≡◌, refl, arith, All, length,
  length-append, if◌then◌else◌, Bool-cases, inl, inr,
}
use getarp.Ingest.Source.{Address}
use getarp.Ingest.Store.{
  IpRow, seen_again, has_ip, upsert_ip, same_address, ports_cap, services_cap,
}

-- the sum of `event_count`
unfoldable pub total_events : List IpRow → ℕ
total_events [] = 0
total_events (row ∷ rows) = row.event_count + total_events rows

pub total-upsert :
    (now : ℕ) (a : Address) (service : String) (port : Option ℤ) (rows : List IpRow)
    → total_events (upsert_ip now a service port rows) ≡ total_events rows + 1
unfolding total_events upsert_ip
total-upsert now a service port [] = refl
total-upsert now a service port (row ∷ rows) = ground (arith, total-upsert now a service port rows)

-- a new row is added exactly for an address that had none
pub length-upsert :
    (now : ℕ) (a : Address) (service : String) (port : Option ℤ) (rows : List IpRow)
    → length (upsert_ip now a service port rows)
      ≡ (if has_ip a rows then length rows else length rows + 1)
unfolding upsert_ip has_ip
length-upsert now a service port [] = refl
length-upsert now a service port (row ∷ rows) =
    ground (arith, length-upsert now a service port rows)

-- the arrays of a row stay within their caps
pub record IsCapped (row : IpRow) : Type 0 where
  pub services : length row.services_hit ≤ services_cap
  pub ports : length row.ports_hit ≤ ports_cap

seen_again-IsCapped :
    (now : ℕ) (service : String) (port : Option ℤ) (row : IpRow)
    → IsCapped row
    → IsCapped (seen_again now service port row)
unfolding seen_again
seen_again-IsCapped now service none row h = record {
  services = ground (arith, length-append {0} row.services_hit (service ∷ []), h.services);
  ports = h.ports;
}
seen_again-IsCapped now service (some p) row h = record {
  services = ground (arith, length-append {0} row.services_hit (service ∷ []), h.services);
  ports = ground (arith, length-append {0} row.ports_hit (p ∷ []), h.ports);
}

-- Whatever addresses, services and ports the events bring, no row of `ips` holds more than 32 services
-- or 128 ports.
pub upsert_ip-IsCapped :
    (now : ℕ) (a : Address) (service : String) (port : Option ℤ) (rows : List IpRow)
    → All IsCapped rows
    → All IsCapped (upsert_ip now a service port rows)
unfolding upsert_ip
upsert_ip-IsCapped now a service none [] h = (omega arith, tt)
upsert_ip-IsCapped now a service (some p) [] h = (omega arith, tt)
upsert_ip-IsCapped now a service port (row ∷ rows) h =
    elim (Bool-cases (same_address row.src_ip a)) [
      | inl same ↦ rw same (seen_again-IsCapped now service port row h.0, h.1)
      | inr other ↦ rw other (h.0, upsert_ip-IsCapped now a service port rows h.1)
    ]
