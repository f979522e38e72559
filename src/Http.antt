-- ===== src/Http.antt =====
-- aras/src/protocols/http.rs: one HTTP request and its response.
pub mod Library
pub mod Request
pub mod Response
pub mod Framing
pub mod Handler
pub mod Interruption
pub mod Handling
pub mod Relay
pub mod Failing
pub mod Breaking
