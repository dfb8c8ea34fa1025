-- ===== src/Webhook.antt =====
-- utils/webhook.js and config/webhook.config.js: the delivery-status callbacks.
pub mod Url
pub mod Payload
pub mod Queue
pub mod Sender
pub mod Laws
