-- ===== src/Runtime/Reconcile.antt =====
-- internal/runtime/autopilot.go, `reconcileOrder` and what it calls, and the records of
-- internal/persistence/store.go: the status of a placed order is polled until it is terminal.
pub mod Defs
pub mod Delays
pub mod Outcome
