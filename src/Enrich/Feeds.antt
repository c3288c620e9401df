-- ===== src/Enrich/Feeds.antt =====
-- `_store` of enrichment/feeds.py: a feed's rows in the table `feed_indicators`, replaced in batches
-- inside one transaction.
pub mod Replaces
use getarp.Base.Exec.{Result, ok, raise, ◌>>=◌}
use getarp.Base.{
  ℕ, suc, String, ◌==◌, Bool, true, false, ◌||◌, ◌&&◌, not, Option, none, some, List, [], ◌∷◌, ◌++◌,
  length, keep, any, eqb, leb, if◌then◌else◌,
}
use getarp.Json.{Value}
use getarp.Retry.{Ex}
use getarp.Ingest.Source.{Address}

-- a row as the caller streams it: (indicator_ip, type, category, meta_dict)
pub record FeedRow : Type 0 where
  pub indicator : String
  pub kind : String
  pub category : Value
  pub meta : Value

-- a row of `feed_indicators`
pub record Indicator : Type 0 where
  pub source : String
  pub address : Address
  pub kind : String
  pub category : Value
  pub meta : String

-- `ipaddress.ip_address` and `json.dumps`; `none` is a ValueError
pub record Codec : Type 0 where
  pub parse_ip : String → Option Address
  pub dumps : Value → Option String

-- The failure of a call to Postgres, if it has one; statements count from 0, the DELETE.
pub record Faults : Type 0 where
  pub acquire : Option Ex
  pub statement : ℕ → Option Ex
  pub commit : Option Ex

-- what the `try` appends to the batch
unfoldable pub indicator_of : Codec → String → FeedRow → Option Indicator
indicator_of c source r = elim (c.parse_ip r.indicator) [
  | none ↦ none
  | some a ↦ elim (c.dumps r.meta) [
    | none ↦ none
    | some m ↦
        some
          (record { source = source; address = a; kind = r.kind; category = r.category; meta = m })
  ]
]

-- the same source and indicator, the key of the table
abbrev pub same_key : Indicator → Indicator → Bool
same_key i j =
    i.source == j.source
    && eqb i.address.version j.address.version
    && eqb i.address.number j.address.number

-- `_STORE_SQL`, ON CONFLICT DO NOTHING
unfoldable pub add_indicator : Indicator → List Indicator → List Indicator
add_indicator i table = if any (same_key i) table then table else i ∷ table

-- the rows that `executemany` is given, one after the other
unfoldable pub add_all : List Indicator → List Indicator → List Indicator
add_all [] table = table
add_all (i ∷ is) table = add_all is (add_indicator i table)

-- a statement that fails has no effect
abbrev pub statement : Faults → ℕ → List Indicator → Result Ex (List Indicator)
statement f k after = elim (f.statement k) [ none ↦ ok after | some ex ↦ raise ex ]

-- The loop over the rows and the last batch: `batch` is what waits, `k` the number of the next
-- statement.
unfoldable pub fill :
    Codec
    → ℕ
    → Faults
    → String
    → List FeedRow
    → List Indicator
    → ℕ
    → List Indicator
    → Result Ex (List Indicator)
fill c chunk f source [] [] k table = ok table
fill c chunk f source [] (i ∷ is) k table = statement f k (add_all (i ∷ is) table)
fill c chunk f source (r ∷ rs) batch k table = elim (indicator_of c source r) [
  | none ↦ fill c chunk f source rs batch k table
  | some i ↦ elim (leb chunk (length (batch ++ i ∷ []))) [
    | true ↦
        statement f k (add_all (batch ++ i ∷ []) table)
        >>= (λ t. fill c chunk f source rs [] (suc k) t)
    | false ↦ fill c chunk f source rs (batch ++ i ∷ []) k table
  ]
]

-- the DELETE
unfoldable pub without : String → List Indicator → List Indicator
without source table = keep (λ i. not (i.source == source)) table

-- the transaction, up to its commit
unfoldable pub transaction :
    Codec → ℕ → Faults → String → List FeedRow → List Indicator → Result Ex (List Indicator)
transaction c chunk f source rows table =
    statement f 0 (without source table)
    >>= (λ t. fill c chunk f source rows [] 1 t)
    >>= (λ t. elim f.commit [ none ↦ ok t | some ex ↦ raise ex ])

-- an exception rolls the table back
abbrev pub settled :
    List Indicator → Result Ex (List Indicator) → Result Ex (Unit {0}) × List Indicator
settled table (ok t) = (ok tt, t)
settled table (raise ex) = (raise ex, table)

-- `_store`
unfoldable pub store :
    Codec
    → ℕ
    → Faults
    → String
    → List FeedRow
    → List Indicator
    → Result Ex (Unit {0}) × List Indicator
store c chunk f source rows table =
    settled table
      (elim f.acquire [ some ex ↦ raise ex | none ↦ transaction c chunk f source rows table ])
