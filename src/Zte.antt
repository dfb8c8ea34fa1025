-- ===== src/Zte.antt =====
-- utils/zte-http.js: the modem's JSON, the driver's settings, and its HTTP requests. What each
-- request meets is given in advance, with the time it takes; what is asked is kept in a log.
pub mod Settings
pub mod Base64
pub mod Session
pub mod Added
pub mod Send
pub mod Inbox
pub mod Ussd
