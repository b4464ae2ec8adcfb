-- ===== src/Execution/LiveRouter.antt =====
-- internal/execution/live_router.go. `Submit` holds the router's mutex for its whole body, so it is one
-- step. A set of Go (`map[string]struct{}`) is the list of its keys; a nil map is the empty list. The
-- kill switch that `KillSwitch()` hands out is the router's own field.
pub mod Defs
pub mod Cases
pub mod Steps
pub mod Spec
pub mod Caps
pub mod Halts
pub mod NotNumber
pub mod Book
pub mod Append
