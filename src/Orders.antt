-- ===== src/Orders.antt =====
-- internal/connectors/polymarket/dynamic_order_builder.go: the orders that the worker signs itself.
pub mod Defs
pub mod Request
pub mod Sound
pub mod Data
