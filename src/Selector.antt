-- ===== src/Selector.antt =====
-- internal/assetpicker/selector.go: which markets are watched, and which tokens of them.
pub mod Defs
pub mod Tokens
pub mod Pairs
pub mod Select
