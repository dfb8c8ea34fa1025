-- ===== src/Router.antt =====
-- router/router.js: the requests of the HTTP API.
pub mod Validate
pub mod Send
pub mod Messages
pub mod Queries
pub mod Ussd
