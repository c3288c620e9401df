-- ===== src/Enrich.antt =====
-- The enrichment worker: enrichment/base.py, enrichment/providers.py and enrichment/worker.py.
pub mod Record
pub mod Memory
pub mod Merge
pub mod Worker
pub mod Stream
pub mod Refresh
pub mod Budget
pub mod Http
pub mod Greynoise
pub mod Virustotal
pub mod Ipinfo
pub mod Crowdsec
pub mod Blocklist
pub mod Abusech
pub mod Multi
pub mod Tiered
pub mod Feeds
pub mod Index
pub mod Threatfox
pub mod Lapi
pub mod Geo
