-- ===== src/Text.antt =====
-- Rust's text types. A `String` is the list of its Unicode scalar values, and `Bytes` is the list of
-- its bytes; the conversions between the two are UTF-8, as in `std::string` and `std::str`.
pub mod Utf8
pub mod RoundTrip
