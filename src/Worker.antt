-- ===== src/Worker.antt =====
-- config/bull.config.js: the queue worker of the SMS.
pub mod Wait
pub mod Send
