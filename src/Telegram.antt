-- ===== src/Telegram.antt =====
-- src/telegram: what the bot does with an update, and the route that updates come in by.
pub mod Service
pub mod Updates
pub mod Webhook
pub mod Photos
