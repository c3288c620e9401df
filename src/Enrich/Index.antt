-- ===== src/Enrich/Index.antt =====
-- What the feeds of enrichment/feeds.py with an index in memory share, and `AbuseChFeodoFeed`. The end
-- of each `refresh`: what was downloaded is stored, then it is the index; whatever raises before
-- leaves both.
pub mod Agrees
pub mod Reloads
use Prim.Native.Char.{code}
use getarp.Base.Exec.{Result, ok, raise}
use getarp.Base.Int.{pos}
use getarp.Base.{
  ℕ, min, String, ◌==◌, Bool, true, false, ◌||◌, ◌&&◌, not, Option, none, some, List, [], ◌∷◌, ◌++◌,
  map, eqb, elem, keep, or_else, has_char, if◌then◌else◌,
}
use getarp.Base.Dict.{Dict, get, put}
use getarp.Json.{Value, Items, Fields, null, bool, int, str, arr, obj, nil, cons, end, field}
use getarp.Retry.{Ex}
use getarp.Ingest.Source.{Address}
use getarp.Enrich.Record.{Enrichment, unknown}
use getarp.Enrich.Blocklist.{parse}
use getarp.Enrich.Feeds.{FeedRow, Indicator, Codec, Faults, store}

-- the index in memory, and the table `feed_indicators`
pub record Feed (I : Type 0) : Type 0 where
  pub index : I
  pub table : List Indicator

abbrev pub stored : {I : Type 0} → I → Feed I → Result Ex (Unit {0}) × List Indicator → Feed I
stored new f (ok u, table) = record { index = new; table = table }
stored new f (raise ex, table) = record f { table = table }

-- the end of `refresh`: `new` is what was downloaded, or the text of what raised; `rows` the rows of it
unfoldable pub replace :
    {I : Type 0}
    → Codec
    → ℕ
    → Faults
    → String
    → (I → List FeedRow)
    → Result String I
    → Feed I
    → Feed I
replace c chunk faults source rows (raise ex) f = f
replace c chunk faults source rows (ok new) f =
    stored new f (store c chunk faults source (rows new) f.table)

abbrev pub feodo_row : String → FeedRow
feodo_row ip = record { indicator = ip; kind = "ip"; category = str "feodo-c2"; meta = obj end }

abbrev pub feodo_rows : List String → List FeedRow
feodo_rows ips = map feodo_row ips

abbrev pub not_empty : List String → Result String (List String)
not_empty [] = raise "empty blocklist"
not_empty (ip ∷ ips) = ok (ip ∷ ips)

-- the text of the response, or the text of what raised
unfoldable pub feodo_download : Result String String → Result String (List String)
feodo_download (raise ex) = raise ex
feodo_download (ok text) = not_empty (parse text)

-- `AbuseChFeodoFeed.refresh`
unfoldable pub refresh_feodo :
    Codec → ℕ → Faults → Result String String → Feed (List String) → Feed (List String)
refresh_feodo c chunk faults download f =
    replace c chunk faults "feodo" feodo_rows (feodo_download download) f

-- `_load_rows`, of the addresses; `show` is `host(indicator)`
unfoldable pub load_rows : (Address → String) → String → List Indicator → List String
load_rows show source table = map (λ i. show i.address) (keep (λ i. i.source == source) table)

-- `json.loads(meta) if meta else {}`
abbrev pub meta_in : {M : Type 0} → (String → Option M) → M → String → Option M
meta_in loads empty text = if text == "" then some empty else loads text

-- the dict of the feeds that keep what the row says; `none` is a ValueError
unfoldable pub add_metas :
    {M : Type 0}
    → (Address → String)
    → (String → Option M)
    → M
    → Dict M
    → List Indicator
    → Option (Dict M)
add_metas show loads empty d [] = some d
add_metas show loads empty d (i ∷ is) = elim (meta_in loads empty i.meta) [
  | none ↦ none
  | some m ↦ add_metas show loads empty (put d (show i.address) m) is
]

-- `load` of these feeds
unfoldable pub load_metas :
    {M : Type 0}
    → (Address → String)
    → (String → Option M)
    → M
    → String
    → List Indicator
    → Option (Dict M)
load_metas show loads empty source table =
    add_metas show loads empty [] (keep (λ i. i.source == source) table)

-- `AbuseChFeodoFeed.load`
unfoldable pub load_feodo : (Address → String) → List Indicator → Feed (List String)
load_feodo show table = record { index = load_rows show "feodo" table; table = table }

-- `AbuseChFeodoFeed.lookup`
unfoldable pub lookup_feodo : Feed (List String) → String → Option Enrichment
lookup_feodo f ip =
    if elem ip f.index
    then some (record (unknown ip "feodo") {
      reputation = "malicious";
      is_known_attacker = true;
      confidence = 90;
      categories = "feodo-c2" ∷ [];
      raw = obj (field "source" (str "feodo-blocklist") (field "listed" (bool true) end));
    })
    else none
