-- ===== src/Ussd.antt =====
-- store/ussd-store.js and config/ussd.config.js: USSD sessions.
pub mod Store
pub mod Worker
pub mod Poll
