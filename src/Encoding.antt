-- ===== src/Encoding.antt =====
-- utils/sms-encoding.js: the GSM 03.38 tables, how a message is counted and split into parts, and
-- the UCS2 hexadecimal form.
pub mod Charset
pub mod Split
pub mod Septets
pub mod Parts
pub mod Capacity
pub mod Pairs
pub mod Message
pub mod Hex
