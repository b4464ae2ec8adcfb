-- ===== src/Worker.antt =====
-- cmd/worker/main.go: what the worker reads from its environment, the nonces that it hands out, and the
-- orders that it builds. The start of its servers and its HTTP requests are not modelled.
pub mod Env
pub mod Nonce
pub mod Build
pub mod Assets
pub mod Wiring
