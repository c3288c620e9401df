-- ===== src/Enrich/Record.antt =====
-- `Enrichment` of enrichment/base.py, and what a provider answers.
use getarp.Base.{ℕ, String, ◌==◌, Bool, false, Option, none, some, List, [], map, if◌then◌else◌}
use getarp.Json.Nul.{strip_text, strip_nulls}
use getarp.Json.{Value, obj, end}

-- `confidence` is in hundredths.
pub record Enrichment : Type 0 where
  pub src_ip : String
  pub provider : String
  pub country : Option String
  pub asn : Option String
  pub org : Option String
  pub reputation : String
  pub confidence : ℕ
  pub categories : List String
  pub is_known_attacker : Bool
  pub raw : Value

-- `Enrichment(src_ip=ip, provider=name)`
abbrev pub unknown : String → String → Enrichment
unknown ip name = record {
  src_ip = ip;
  provider = name;
  country = none;
  asn = none;
  org = none;
  reputation = "unknown";
  confidence = 0;
  categories = [];
  is_known_attacker = false;
  raw = obj end;
}

abbrev strip_option : Option String → Option String
strip_option none = none
strip_option (some s) = some (strip_text s)

-- `as_db`
unfoldable pub as_db : Enrichment → Enrichment
as_db e = record {
  src_ip = strip_text e.src_ip;
  provider = strip_text e.provider;
  country = strip_option e.country;
  asn = strip_option e.asn;
  org = strip_option e.org;
  reputation = strip_text e.reputation;
  confidence = e.confidence;
  categories = map strip_text e.categories;
  is_known_attacker = e.is_known_attacker;
  raw = strip_nulls e.raw;
}

-- `Enrichment | Exception`; an exception is known by its text
pub data Answer : Type 0 where
  fetched : Enrichment → Answer
  failed : String → Answer

-- `_REP_SEVERITY.get(reputation, 0)`
unfoldable pub severity : String → ℕ
severity rep =
    if rep == "malicious"
    then 3
    else if rep == "suspicious"
    then 2
    else if rep == "unknown"
    then 1
    else 0
