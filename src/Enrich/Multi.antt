-- ===== src/Enrich/Multi.antt =====
-- `MultiProvider` of enrichment/providers.py: every other registered provider at once.
use getarp.Base.{String, ◌==◌, Bool, ◌||◌, not, List, keep}
use getarp.Enrich.Record.{Enrichment, Answer}
use getarp.Enrich.Merge.{merge_enrichments}

-- what `asyncio.gather` gives: for each class of `_REGISTRY`, in its order, the answer of the provider
-- or what it raised
abbrev pub Asked : Type 0
Asked = List (String × Answer)

-- `name not in (self.name, "tiered")`
abbrev pub is_asked : String × Answer → Bool
is_asked (name, answer) = not (name == "multi" || name == "tiered")

-- `MultiProvider.enrich`
unfoldable pub enrich : String → Asked → Enrichment
enrich ip registry = merge_enrichments ip "multi" (keep is_asked registry)
