-- ===== src/Execution/PaperRouter.antt =====
-- internal/execution/paper_router.go. The router has no lock; its calls are taken one after another.
pub mod Defs
pub mod Limits
