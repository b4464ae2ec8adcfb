-- ===== src/Strategy.antt =====
-- The package `internal/strategy`.
pub mod RankShift
