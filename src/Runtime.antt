-- ===== src/Runtime.antt =====
-- The package `internal/runtime`: anomalies, telemetry, operator alerts, and the reconciliation of orders.
pub mod Anomaly
pub mod Telemetry
pub mod Reconcile
pub mod AutoPilot
pub mod StreamWorker
