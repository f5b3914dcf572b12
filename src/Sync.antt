-- ===== src/Sync.antt =====
-- internal/sync: the webhook of the sync-operator and what it is made of.
pub mod Path
pub mod GitHub
pub mod Hmac
pub mod Fetch
pub mod Apply
pub mod Webhook
