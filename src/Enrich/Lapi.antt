-- ===== src/Enrich/Lapi.antt =====
-- `CrowdSecLocalFeed` of enrichment/feeds.py: the decisions of the engine, the community list included.
pub mod Banned
use getarp.Base.Exec.{Result}
use getarp.Base.{
  ℕ, String, ◌==◌, Bool, true, false, ◌||◌, ◌&&◌, not, Option, none, some, List, [], ◌∷◌, ◌++◌, map,
  elem, keep, or_else, if◌then◌else◌,
}
use getarp.Base.Dict.{Dict, get, put}
use getarp.Json.{Value, Items, Fields, str, arr, obj, nil, cons, end, field}
use getarp.Ingest.Source.{Address}
use getarp.Enrich.Record.{Enrichment, unknown}
use getarp.Enrich.Feeds.{FeedRow, Codec, Faults, Indicator}
use getarp.Enrich.Index.{Feed, replace, load_metas}

-- a decision, the fields that are read
pub record Ban : Type 0 where
  pub value : Option String
  pub kind : Option String
  pub scenario : String
  pub origin : String

-- what is kept of an address
pub record Entry : Type 0 where
  pub scenarios : List String
  pub origins : List String

-- `d.get("type") in (None, "ban", "captcha")`
abbrev pub is_counted : Option String → Bool
is_counted none = true
is_counted (some kind) = kind == "ban" || kind == "captcha"

abbrev pub new_entry : Entry
new_entry = record { scenarios = []; origins = [] }

-- `if s and s not in ss: ss.append(s)`
abbrev pub append_new : String → List String → List String
append_new s ss = if not (s == "") && not (elem s ss) then ss ++ s ∷ [] else ss

abbrev pub extend : Ban → Entry → Entry
extend d e = record {
  scenarios = append_new d.scenario e.scenarios;
  origins = append_new d.origin e.origins;
}

-- one round of the loop over the decisions
unfoldable pub add_ban : Dict Entry → Ban → Dict Entry
add_ban ds d =
    let ip = or_else d.value "" in
    if ip == "" || not (is_counted d.kind)
    then ds
    else put ds ip (extend d (or_else (get ds ip) new_entry))

unfoldable pub add_bans : Dict Entry → List Ban → Dict Entry
add_bans ds [] = ds
add_bans ds (b ∷ bs) = add_bans (add_ban ds b) bs

abbrev first_or : String → List String → String
first_or d [] = d
first_or d (s ∷ ss) = s

abbrev texts : List String → Items
texts [] = nil
texts (s ∷ ss) = cons (str s) (texts ss)

abbrev entry_fields : Entry → Fields
entry_fields e =
    field "scenarios" (arr (texts e.scenarios)) (field "origins" (arr (texts e.origins)) end)

abbrev pub lapi_row : String × Entry → FeedRow
lapi_row (ip, e) = record {
  indicator = ip;
  kind = "ip";
  category = str (first_or "ban" e.scenarios);
  meta = obj (entry_fields e);
}

abbrev downloaded : Result String (List Ban) → Result String (Dict Entry)
downloaded r = elim r [
  | Result.raise ex ↦ Result.raise ex
  | Result.ok bans ↦ Result.ok (add_bans [] bans)
]

-- `refresh`; `key` says whether a key is set
unfoldable pub refresh_lapi :
    Bool → Codec → ℕ → Faults → Result String (List Ban) → Feed (Dict Entry) → Feed (Dict Entry)
refresh_lapi false c chunk faults download f = f
refresh_lapi true c chunk faults download f =
    replace c chunk faults "crowdsec-lapi" (map lapi_row) (downloaded download) f

-- `load`; `loads` reads the two keys
unfoldable pub load_lapi :
    (Address → String) → (String → Option Entry) → List Indicator → Option (Dict Entry)
load_lapi show loads table = load_metas show loads new_entry "crowdsec-lapi" table

abbrev or_tag : String → List String → List String
or_tag tag [] = tag ∷ []
or_tag tag (c ∷ cs) = c ∷ cs

abbrev found : String → Entry → Enrichment
found ip e = record (unknown ip "crowdsec-lapi") {
  reputation = "malicious";
  is_known_attacker = true;
  confidence = 90;
  categories = or_tag "crowdsec-ban" (keep (λ s. not (s == "")) e.scenarios);
  raw = obj (field "source" (str "crowdsec-lapi") (entry_fields e));
}

-- `lookup`
unfoldable pub lookup_lapi : Dict Entry → String → Option Enrichment
lookup_lapi ds ip = elim (get ds ip) [ none ↦ none | some e ↦ some (found ip e) ]
