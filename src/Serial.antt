-- ===== src/Serial.antt =====
-- utils/modem.js: the driver of a modem on a serial port.
pub mod Utf8
pub mod Lines
pub mod Connection
pub mod Listing
pub mod Session
pub mod Inbox
pub mod Ussd
