-- ===== src/Webhook.antt =====
-- The webhook server, src/webhook.
pub mod Checkbox
pub mod Events
pub mod Server
pub mod Handlers
pub mod Valid
pub mod Guard
pub mod Scheduled
pub mod Effects
