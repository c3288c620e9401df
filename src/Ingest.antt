-- ===== src/Ingest.antt =====
-- pipeline/ingestor.py: from a sensor's line to the database, the analytics bus and the enrichment
-- queue.
pub mod Event
pub mod Normalize
pub mod Source
pub mod Redact
pub mod Store
pub mod Handle
pub mod Checkpoint
pub mod Tail
