-- ===== src/Enrich/Geo.antt =====
-- The geo feeds of enrichment/feeds.py: `GeoLiteFeed.lookup`, and `IPinfoLiteFeed` with the database
-- file that it replaces. The readers of maxminddb are parameters; a reader may raise.
pub mod Whole
use getarp.Base.Exec.{Result, ok, raise}
use getarp.Base.{
  ℕ, ◌-◌, String, ◌==◌, Bool, true, false, ◌||◌, ◌&&◌, Option, none, some, is_some, ltb, text_drop,
  if◌then◌else◌,
}
use getarp.Json.{Value, str, obj, end, field}
use getarp.Enrich.Record.{Enrichment, unknown}
use getarp.Enrich.Ipinfo.{is_prefixed}

-- the record of an address in the ASN database; the number as its text
pub record AsnRecord : Type 0 where
  pub number : Option String
  pub organization : Option String

-- the readers that are open
pub record Readers : Type 0 where
  pub city : Option (String → Result String (Option String))
  pub asn : Option (String → Result String AsnRecord)

-- `x or None`
abbrev pub or_none : Option String → Option String
or_none none = none
or_none (some s) = if s == "" then none else some s

abbrev iso_of : Readers → String → Result String (Option String)
iso_of r ip = elim r.city [ none ↦ ok none | some read ↦ read ip ]

abbrev asn_of : Readers → String → Result String AsnRecord
asn_of r ip = elim r.asn [
  | none ↦ ok (record { number = none; organization = none })
  | some read ↦ read ip
]

-- `e if got else None`
unfoldable pub found :
    String → String → Option String → Option String → Option String → Option Enrichment
found name ip none none none = none
found name ip country asn org =
    some (record (unknown ip name) { country = country; asn = asn; org = org })

-- `GeoLiteFeed.lookup`; with no reader there is nothing, as with readers that know nothing
unfoldable pub lookup_geolite : Readers → String → Option Enrichment
lookup_geolite r ip = elim (iso_of r ip) [
  | raise ex ↦ none
  | ok iso ↦ elim (asn_of r ip) [
    | raise ex ↦ none
    | ok a ↦ found "geolite" ip (or_none iso) (or_none a.number) (or_none a.organization)
  ]
]

-- the record of an address in the database of IPinfo; a missing text is `""`
pub record LiteRecord : Type 0 where
  pub asn : String
  pub country : String
  pub as_name : String
  pub as_domain : Value
  pub continent : Value

abbrev pub Reader : Type 0
Reader = String → Result String LiteRecord

-- `asn[2:] if asn.upper().startswith("AS") else asn`
abbrev bare : String → String
bare asn = if is_prefixed asn then text_drop 2 asn else asn

abbrev some_text : String → Option String
some_text s = or_none (some s)

-- `if not (country or asn or org): return None`
unfoldable pub lite_answer : String → LiteRecord → Option Enrichment
lite_answer ip d =
    if d.country == "" && bare d.asn == "" && d.as_name == ""
    then none
    else some (record (unknown ip "ipinfo-lite") {
      country = some_text d.country;
      asn = some_text (bare d.asn);
      org = some_text d.as_name;
      raw = obj (
          field "source" (str "ipinfo-lite")
            (field "as_domain" d.as_domain (field "continent" d.continent end)));
    })

-- `IPinfoLiteFeed.lookup`
unfoldable pub lookup_lite : Option Reader → String → Option Enrichment
lookup_lite none ip = none
lookup_lite (some read) ip = elim (read ip) [ raise ex ↦ none | ok d ↦ lite_answer ip d ]

-- the file: what opening it gives, `none` where that raises, its size and its time
pub record Database : Type 0 where
  pub opens : Option Reader
  pub size : ℕ
  pub mtime : ℕ

-- the reader that is open, and the file
pub record State : Type 0 where
  pub reader : Option Reader
  pub file : Option Database

-- `_MIN_BYTES`
abbrev pub min_bytes : ℕ
min_bytes = 1000000

-- `_open`
unfoldable pub open_file : State → State
open_file s = elim s.file [
  | none ↦ s
  | some d ↦ elim d.opens [ none ↦ s | some r ↦ record s { reader = some r } ]
]

-- the clock, and what the download and the replacement of the file come to
pub record Refresh : Type 0 where
  pub now : ℕ
  pub max_age : ℕ
  pub download : Result String Database
  pub replace_fails : Bool

abbrev pub is_fresh : Refresh → Option Database → Bool
is_fresh r none = false
is_fresh r (some d) = ltb (r.now - d.mtime) r.max_age

-- from the size of the download on
unfoldable pub install : Refresh → Database → State → State
install r d s =
    if ltb d.size min_bytes || r.replace_fails then s else open_file (record s { file = some d })

-- the `try`
unfoldable pub renew : Refresh → Result String Database → State → State
renew r (raise ex) s = s
renew r (ok d) s = install r d s

-- `refresh`; `token` says whether a token is set
unfoldable pub refresh_lite : Bool → Refresh → State → State
refresh_lite false r s = s
refresh_lite true r s =
    if is_fresh r s.file
    then (if is_some s.reader then s else open_file s)
    else renew r r.download s
