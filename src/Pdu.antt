-- ===== src/Pdu.antt =====
-- utils/pdu.js: the SMS-SUBMIT PDUs of a concatenated message.
pub mod Address
pub mod Pack
pub mod Build
pub mod Reader
pub mod Text
pub mod Fields
pub mod Octets
pub mod RoundTrip
pub mod Multipart
