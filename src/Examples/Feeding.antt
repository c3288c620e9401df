-- ===== src/Examples/Feeding.antt =====
-- Feeds: one stored in batches of two, with and without a failure; one reloaded after a restart; and
-- the decisions of the engine.
use getarp.Base.Exec.{ok, raise}
use getarp.Base.{
  All, split_where, first_word, strip, lstrip, rstrip, ℕ, zero, suc, text_append, false, is_some,
  any, elem, text_length, String, ◌==◌, none, some, List, length, ◌⊎◌, [], ◌∷◌, eqb, if◌then◌else◌,
  ◌≡◌, refl,
}
use getarp.Json.{obj, end, str}
use getarp.Retry.{Ex, plain, connection_error}
use getarp.Enrich.Feeds.{
  FeedRow, Indicator, Codec, Faults, indicator_of, store, add_all, add_indicator, without,
  transaction, fill,
}
use getarp.Enrich.Feeds.Replaces.{Fails, replaced, stored_rows, store_atomic}
use getarp.Enrich.Lapi.{Ban, add_bans, add_ban, lookup_lapi}
use getarp.Enrich.Lapi.Banned.{is_about, is_for, scenarios_of, lookup-bans}
use getarp.Enrich.Index.{Feed, load_feodo, refresh_feodo}
use getarp.Enrich.Index.Reloads.{IsCanonical, refresh_feodo-load_feodo}
use getarp.Enrich.Blocklist.{parse, add_lines, entry}
use getarp.Base.Dict.{get, put}
use getarp.Ingest.Source.{Address}
use getarp.Examples.Data.{scanner}

abbrev codec : Codec
codec = record {
  parse_ip = λ s. if s == "?" then none else some (record scanner { number = text_length s });
  dumps = λ v. some "{}";
}

abbrev feed_row : String → FeedRow
feed_row s = record { indicator = s; kind = "ip"; category = str "feodo-c2"; meta = obj end }

abbrev feed : List FeedRow
feed = feed_row "1" ∷ feed_row "?" ∷ feed_row "22" ∷ feed_row "333" ∷ []

abbrev stale : List Indicator
stale =
    record {
      source = "feodo";
      address = scanner;
      kind = "ip";
      category = str "feodo-c2";
      meta = "{}";
    }
    ∷ []

-- the second batch fails
abbrev outage : Faults
outage = record {
  acquire = none;
  statement = λ k. if eqb k 2 then some (plain connection_error "down") else none;
  commit = none;
}

store_atomic_example :
    ((ex : Ex) × (store codec 2 outage "feodo" feed stale ≡ (raise ex, stale)) × Fails outage ex)
    ⊎ (store codec 2 outage "feodo" feed stale ≡ (ok tt, replaced codec "feodo" feed stale))
store_atomic_example = store_atomic codec 2 outage "feodo" feed stale

three_stored : length (replaced codec "feodo" feed stale) ≡ 3
unfolding replaced stored_rows indicator_of add_all add_indicator without
three_stored = refl

rolled_back :
    store codec 2 outage "feodo" feed stale ≡ (raise (plain connection_error "down"), stale)
unfolding store transaction fill indicator_of without
rolled_back = refl

abbrev ban : String → String → Ban
ban kind scenario = record {
  value = some "203.0.113.9";
  kind = some kind;
  scenario = scenario;
  origin = "CAPI";
}

abbrev bans : List Ban
bans = ban "ban" "ssh:bruteforce" ∷ ban "whitelist" "http:scan" ∷ ban "captcha" "http:crawl" ∷ []

lookup-bans_example :
    (is_some (lookup_lapi (add_bans [] bans) "203.0.113.9") ≡ any (is_about "203.0.113.9") bans)
    × (elem "http:crawl" (scenarios_of (add_bans [] bans) "203.0.113.9")
        ≡ any (is_for "203.0.113.9" "http:crawl") bans)
lookup-bans_example = lookup-bans bans "203.0.113.9" "http:crawl" refl refl

not_whitelisted : elem "http:scan" (scenarios_of (add_bans [] bans) "203.0.113.9") ≡ false
unfolding add_bans add_ban get put
not_whitelisted = refl

-- addresses as tallies
strokes : ℕ → String
strokes zero = ""
strokes (suc n) = text_append "|" (strokes n)

abbrev shown_address : Address → String
shown_address a = strokes a.number

abbrev never : Faults
never = record { acquire = none; statement = λ k. none; commit = none }

abbrev listing : String
listing = "# C2\n|||\n||"

abbrev old_feed : Feed (List String)
old_feed = record { index = "|" ∷ []; table = stale }

listed_strokes : parse listing ≡ "||" ∷ "|||" ∷ []
unfolding parse add_lines split_where entry first_word strip lstrip rstrip
listed_strokes = refl

two-IsCanonical : All (IsCanonical codec shown_address) ("||" ∷ "|||" ∷ [])
unfolding strokes text_append
two-IsCanonical =
    ((record scanner { number = 2 }, refl, refl), ((record scanner { number = 3 }, refl, refl), tt))

refresh_feodo-load_feodo_example :
    let f' = refresh_feodo codec 2 never (ok listing) old_feed in
    (f'.index ≡ parse listing)
    × (elem "||" (load_feodo shown_address f'.table).index ≡ elem "||" (parse listing))
refresh_feodo-load_feodo_example =
    refresh_feodo-load_feodo codec 2 never shown_address "{}" listing "||" ("|||" ∷ []) old_feed
      "||" (record { acquire = refl; statement = λ k. refl; commit = refl }) refl listed_strokes
      (rw listed_strokes two-IsCanonical)
