-- ===== src/Json.antt =====
-- The values of decoded JSON records, as the Python services handle them: `json.loads` of one sensor
-- line (pipeline/ingestor.py), a provider's answer (enrichment/providers.py), a `jsonb` column.
mod Defs
mod Access
pub mod Nul
pub use Defs.*
unfoldable pub use Access.*
