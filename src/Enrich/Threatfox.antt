-- ===== src/Enrich/Threatfox.antt =====
-- `AbuseChThreatFoxFeed` of enrichment/feeds.py.
use Prim.Native.Char.{code}
use getarp.Base.Exec.{Result, ok, raise}
use getarp.Base.Int.{pos}
use getarp.Base.{
  ℕ, min, String, ◌==◌, Bool, true, false, ◌&&◌, not, Option, none, some, List, [], ◌∷◌, ◌++◌, map,
  eqb, or_else, has_char, if◌then◌else◌,
}
use getarp.Base.Dict.{Dict, get, put}
use getarp.Json.{Value, Fields, null, int, str, obj, end, field}
use getarp.Ingest.Source.{Address}
use getarp.Enrich.Record.{Enrichment, unknown}
use getarp.Enrich.Feeds.{FeedRow, Codec, Faults, Indicator}
use getarp.Enrich.Index.{Feed, replace, load_metas}

-- an entry of the answer, the fields that are read; `ioc` is its text
pub record Ioc : Type 0 where
  pub ioc_type : String
  pub ioc : String
  pub malware_printable : Option String
  pub malware : Option String
  pub threat_type : Option String
  pub confidence_level : Option ℕ

pub record Meta : Type 0 where
  pub malware : Option String
  pub threat_type : Option String
  pub confidence_level : Option ℕ

abbrev pub has_text : Option String → Bool
has_text o = not (or_else o "" == "")

-- `a or b`
abbrev or_text : Option String → Option String → Option String
or_text a b = if has_text a then a else b

-- `s.rsplit(":", 1)[0]`
unfoldable pub before_last : ℕ → String → String
before_last n String.[] = String.[]
before_last n (String.◌∷◌ c s) =
    let rest = before_last n s in
    if eqb (code c) n && not (has_char n s) then String.[] else String.◌∷◌ c rest

abbrev meta_of : Ioc → Meta
meta_of i = record {
  malware = or_text i.malware_printable i.malware;
  threat_type = i.threat_type;
  confidence_level = i.confidence_level;
}

-- the loop over the entries
unfoldable pub add_iocs : Dict Meta → List Ioc → Dict Meta
add_iocs iocs [] = iocs
add_iocs iocs (i ∷ is) =
    add_iocs (if i.ioc_type == "ip:port" then put iocs (before_last 58 i.ioc) (meta_of i) else iocs)
      is

abbrev text_value : Option String → Value
text_value none = null
text_value (some s) = str s

abbrev number_value : Option ℕ → Value
number_value none = null
number_value (some n) = int (pos n)

abbrev meta_fields : Meta → Fields
meta_fields m = field "malware" (text_value m.malware) (
    field "threat_type" (text_value m.threat_type)
      (field "confidence_level" (number_value m.confidence_level) end))

abbrev pub threatfox_row : String × Meta → FeedRow
threatfox_row (ip, m) = record {
  indicator = ip;
  kind = "ip";
  category = if has_text m.malware then text_value m.malware else str "threatfox-ioc";
  meta = obj (meta_fields m);
}

-- the answer with its `query_status`, or the text of what raised
unfoldable pub threatfox_download : Result String (String × List Ioc) → Result String (Dict Meta)
threatfox_download (raise ex) = raise ex
threatfox_download (ok (query_status, iocs)) =
    if query_status == "ok" then ok (add_iocs [] iocs) else raise "query_status"

-- `AbuseChThreatFoxFeed.refresh`; `key` says whether a key is set
unfoldable pub refresh_threatfox :
    Bool
    → Codec
    → ℕ
    → Faults
    → Result String (String × List Ioc)
    → Feed (Dict Meta)
    → Feed (Dict Meta)
refresh_threatfox false c chunk faults download f = f
refresh_threatfox true c chunk faults download f =
    replace c chunk faults "threatfox" (map threatfox_row) (threatfox_download download) f

abbrev no_meta : Meta
no_meta = record { malware = none; threat_type = none; confidence_level = none }

-- `AbuseChThreatFoxFeed.load`; `loads` reads the three keys
unfoldable pub load_threatfox :
    (Address → String) → (String → Option Meta) → List Indicator → Option (Dict Meta)
load_threatfox show loads table = load_metas show loads no_meta "threatfox" table

-- `(confidence_level or 75) / 100`, 1 at most
abbrev level : Option ℕ → ℕ
level none = 75
level (some n) = min (if eqb n 0 then 75 else n) 100

abbrev present : Option String → List String
present none = []
present (some s) = if s == "" then [] else s ∷ []

abbrev or_tag : String → List String → List String
or_tag tag [] = tag ∷ []
or_tag tag (c ∷ cs) = c ∷ cs

-- `AbuseChThreatFoxFeed.lookup`
unfoldable pub lookup_threatfox : Feed (Dict Meta) → String → Option Enrichment
lookup_threatfox f ip = elim (get f.index ip) [
  | none ↦ none
  | some m ↦ some (record (unknown ip "threatfox") {
    reputation = "malicious";
    is_known_attacker = true;
    confidence = level m.confidence_level;
    categories = or_tag "threatfox-ioc" (present m.malware ++ present m.threat_type);
    raw = obj (field "source" (str "threatfox") (meta_fields m));
  })
]
