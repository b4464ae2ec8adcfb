-- ===== src/Market.antt =====
-- internal/connectors/polymarket/ws_market_client.go: the stream of market updates, and what it reads off
-- the exchange's frames. The sockets and the goroutines of the pings are not modelled.
pub mod Stream
pub mod Backoff
pub mod Decode
pub mod Updates
