-- ===== src/Analytics.antt =====
-- The analytics engine: analytics/engine.py, analytics/correlation/ and analytics/behavioral/.
pub mod Event
pub mod Dedupe
pub mod Scan
pub mod Attack
pub mod Evict
pub mod Windows
pub mod Rank
pub mod Profile
pub mod Snapshot
pub mod Flush
pub mod Findings
pub mod Engine
