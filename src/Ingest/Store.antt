-- ===== src/Ingest/Store.antt =====
-- The tables and streams that pipeline/ingestor.py writes, with the SQL of `_handle` and
-- `_upsert_ip`.
pub mod Counts
use getarp.Base.Int.{ℤ, pos, negsuc}
use getarp.Base.{
  ℕ, suc, ◌+◌, String, ◌==◌, Bool, true, false, ◌&&◌, ◌||◌, not, Option, none, some, List, [], ◌∷◌,
  ◌++◌, eqb, leb, any, length, elem, if◌then◌else◌,
}
use getarp.Json.{Value, null, bool, int, float, str, arr, obj, or_value}
use getarp.Ingest.Event.{Event}
use getarp.Ingest.Source.{Address}

-- a row of `events`: the primary key is (ts, event_id)
pub record Row : Type 0 where
  pub event_id : String
  pub ts : ℕ
  pub event : Event
  pub password : Value
  pub raw : Value

pub record IpRow : Type 0 where
  pub src_ip : Address
  pub event_count : ℕ
  pub services_hit : List String
  pub ports_hit : List ℤ
  pub last_seen : ℕ

-- `bus` is the stream `events`, `queue` the stream `enrich:queue`; Redis trims neither here.
pub record Store : Type 0 where
  pub rows : List Row
  pub ips : List IpRow
  pub bus : List (List (String × String))
  pub queue : List String

abbrev same_key : Row → Row → Bool
same_key a b = eqb a.ts b.ts && a.event_id == b.event_id

-- a conflict on the primary key
unfoldable pub has_row : Row → List Row → Bool
has_row r rows = any (same_key r) rows

abbrev pub same_address : Address → Address → Bool
same_address a b = eqb a.version b.version && eqb a.number b.number

abbrev int_eq : ℤ → ℤ → Bool
int_eq (pos a) (pos b) = eqb a b
int_eq (negsuc a) (negsuc b) = eqb a b
int_eq a b = false

abbrev pub ports_cap : ℕ
ports_cap = 128

abbrev pub services_cap : ℕ
services_cap = 32

-- the CASE of `services_hit`
unfoldable add_service : String → List String → List String
add_service s hit = if elem s hit || leb services_cap (length hit) then hit else hit ++ s ∷ []

-- the CASE of `ports_hit`
unfoldable pub add_port : Option ℤ → List ℤ → List ℤ
add_port none hit = hit
add_port (some p) hit =
    if any (int_eq p) hit || leb ports_cap (length hit) then hit else hit ++ p ∷ []

-- the ARRAY of a new row
abbrev first_port : Option ℤ → List ℤ
first_port none = []
first_port (some p) = p ∷ []

-- `e["service"] or "tcp"` as a text column; the INSERT into `events` has refused what is no text
abbrev pub service_text : Value → String
service_text v = elim (or_value v (str "tcp")) [ str s ↦ s | _ ↦ "tcp" ]

-- `e["dst_port"]` as an integer column; the INSERT into `events` has refused what is no integer
abbrev pub port_number : Value → Option ℤ
port_number (int n) = some n
port_number (bool true) = some (pos 1)
port_number (bool false) = some (pos 0)
port_number _ = none

-- DO UPDATE
unfoldable pub seen_again : ℕ → String → Option ℤ → IpRow → IpRow
unfolding add_service add_port
seen_again now service port row = record row {
  last_seen = now;
  event_count = row.event_count + 1;
  services_hit = add_service service row.services_hit;
  ports_hit = add_port port row.ports_hit;
}

abbrev first_seen : ℕ → Address → String → Option ℤ → IpRow
first_seen now a service port = record {
  src_ip = a;
  event_count = 1;
  services_hit = service ∷ [];
  ports_hit = first_port port;
  last_seen = now;
}

-- `ON CONFLICT (src_ip)`: is there a row already
unfoldable pub has_ip : Address → List IpRow → Bool
has_ip a rows = any (λ row. same_address row.src_ip a) rows

-- the INSERT ... ON CONFLICT DO UPDATE of `_upsert_ip`
unfoldable pub upsert_ip : ℕ → Address → String → Option ℤ → List IpRow → List IpRow
unfolding seen_again
upsert_ip now a service port [] = first_seen now a service port ∷ []
upsert_ip now a service port (row ∷ rows) =
    if same_address row.src_ip a
    then seen_again now service port row ∷ rows
    else row ∷ upsert_ip now a service port rows
