-- ===== src/Runtime/Anomaly.antt =====
-- internal/runtime/anomaly.go, and the readers of a signal's metadata in internal/runtime/autopilot.go.
pub mod Defs
pub mod Severity
