-- ===== src/Telegram.antt =====
-- internal/notify/telegram.go: the sending of messages.
pub mod Arrival
pub mod Defs
pub mod Sent
