-- ===== src/Ingestion.antt =====
-- The package `internal/ingestion`: raw events, their store in memory, gaps in their sequence numbers.
pub mod RawWriter
pub mod Gaps
