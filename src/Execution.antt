-- ===== src/Execution.antt =====
-- The package `internal/execution`: the kill switch and the two order routers.
pub mod KillSwitch
pub mod LiveRouter
pub mod PaperRouter
