-- ===== src/Runtime/AutoPilot.antt =====
-- internal/runtime/autopilot.go: the worker that turns market updates into signals, alerts and orders.
-- `reconcileOrder` and what it calls are in Reconcile.
pub mod Texts
pub mod Defs
pub mod Execute
pub mod Handle
pub mod Loop
pub mod Walk
pub mod Routing
pub mod Notices
pub mod Defaults
pub mod Audit
pub mod Written
