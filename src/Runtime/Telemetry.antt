-- ===== src/Runtime/Telemetry.antt =====
-- internal/runtime/telemetry.go: the counters, the recent anomalies, and the alerts to the operators. What
-- renders them as JSON, HTML or in the format of Prometheus is left out.
pub mod Defs
pub mod Recent
pub mod Alerts
