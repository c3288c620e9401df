-- ===== src/Enrich/Abusech.antt =====
-- `AbusechProvider` of enrichment/providers.py: the blocklist with its copy on disk, and ThreatFox.
pub mod Listed
use getarp.Base.Exec.{Result, ok, raise}
use getarp.Base.{
  ℕ, zero, suc, ◌+◌, ◌-◌, String, ◌==◌, Bool, true, false, ◌&&◌, not, Option, none, some, List, [],
  ◌∷◌, ltb, leb, eqb, elem, length, strip, take, insert_text, if◌then◌else◌,
}
use getarp.Base.Int.{pos}
use getarp.Json.{Value, bool, int, str, obj, end, field}
use getarp.Enrich.Record.{Enrichment, unknown}
use getarp.Enrich.Http.{with_error}
use getarp.Enrich.Blocklist.{parse}

-- the copy on disk: its text, and its `mtime`
pub record CacheFile : Type 0 where
  pub text : String
  pub mtime : ℕ

-- the fields of an instance that change, and the file
pub record State : Type 0 where
  pub blacklist : List String
  pub last_fetch : ℕ
  pub file : Option CacheFile

-- what one attempt at the download comes to: an exception, or a response with its status and text
pub data Attempt : Type 0 where
  failed : Attempt
  got : ℕ → String → Attempt

-- what ThreatFox answers: the tags of each hit, and the answer itself; or the text of an exception
pub record Hits : Type 0 where
  pub tags : List (List String)
  pub raw : Value

-- The clock when the call looks at the age of the list, when it looks again with the lock, when the file
-- is written, and when the refresh is over.
pub record Call : Type 0 where
  pub ip : String
  pub checked : ℕ
  pub entered : ℕ
  pub written : ℕ
  pub done : ℕ
  pub attempts : List Attempt
  pub write_fault : Option String
  pub reply : Result String Hits

abbrev pub ttl : ℕ
ttl = 3600

-- `_load_cache_sync`, at the start; a file that cannot be read is as none
unfoldable pub load_cache : Option CacheFile → State
load_cache none = record { blacklist = []; last_fetch = 0; file = none }
load_cache (some f) = record { blacklist = parse f.text; last_fetch = f.mtime; file = some f }

-- a 200 with a text
unfoldable pub text_of : Attempt → Option String
text_of failed = none
text_of (got status text) = if eqb status 200 && not (strip text == "") then some text else none

-- the loop over the attempts; each pauses after a failure
unfoldable pub first_text : List Attempt → Option String
first_text [] = none
first_text (a ∷ as') = elim (text_of a) [ some text ↦ some text | none ↦ first_text as' ]

-- After the attempts: where the file cannot be opened, that raises.
unfoldable pub adopt : Call → Option String → State → Result String State
adopt c none s = ok (record s { last_fetch = c.done })
adopt c (some text) s = elim c.write_fault [
  | some ex ↦ raise ex
  | none ↦ ok (record {
    blacklist = parse text;
    last_fetch = c.done;
    file = some (record { text = text; mtime = c.written });
  })
]

-- `_refresh_blocklist`
unfoldable pub refresh : Call → State → Result String State
refresh c s =
    if ltb (c.entered - s.last_fetch) ttl then ok s else adopt c (first_text (take 4 c.attempts)) s

-- `if time.time() - self._last_fetch >= self._TTL`
unfoldable pub refreshed : Call → State → Result String State
refreshed c s = if leb ttl (c.checked - s.last_fetch) then refresh c s else ok s

abbrev listed_answer : String → Enrichment
listed_answer ip = record (unknown ip "abusech") {
  reputation = "malicious";
  is_known_attacker = true;
  confidence = 90;
  categories = "feodo-c2" ∷ [];
}

abbrev feodo_raw : Bool → ℕ → Value
feodo_raw listed size = obj (
    field "source" (str "feodo-blocklist")
      (field "listed" (bool listed) (field "blocklist_size" (int (pos size)) end)))

-- the set of the tags, sorted
unfoldable pub add_tags : List String → List String → List String
add_tags set [] = set
add_tags set (t ∷ ts) = insert_text t (add_tags set ts)

unfoldable pub all_tags : List (List String) → List String
all_tags [] = []
all_tags (h ∷ hs) = add_tags (all_tags hs) h

-- `sorted(tags) if tags else ["abusech-threatfox"]`
abbrev tagged : List String → List String
tagged [] = "abusech-threatfox" ∷ []
tagged (t ∷ ts) = t ∷ ts

-- what ThreatFox says of an address that is not listed
unfoldable pub threatfox : Enrichment → Result String Hits → Enrichment
threatfox e (raise ex) = with_error e ex
threatfox e (ok h) = elim h.tags [
  | [] ↦ record e { raw = h.raw }
  | t ∷ ts ↦ record e {
    raw = h.raw;
    reputation = "malicious";
    is_known_attacker = true;
    confidence = 90;
    categories = tagged (all_tags (t ∷ ts));
  }
]

-- the answer by the list; `key` says whether ThreatFox is asked about an address that is not on it
unfoldable pub answer : Bool → Call → List String → Enrichment
answer true c list =
    if elem c.ip list then listed_answer c.ip else threatfox (unknown c.ip "abusech") c.reply
answer false c list =
    if elem c.ip list
    then record (listed_answer c.ip) { raw = feodo_raw true (length list) }
    else record (unknown c.ip "abusech") { raw = feodo_raw false (length list) }

abbrev after : Bool → Call → State → Result String State → Result String Enrichment × State
after key c s (raise ex) = (raise ex, s)
after key c s (ok s') = (ok (answer key c s'.blacklist), s')

-- `enrich`, and `_threatfox_lookup` where a key is set
unfoldable pub enrich : Bool → Call → State → Result String Enrichment × State
enrich key c s = after key c s (refreshed c s)
