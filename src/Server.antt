-- ===== src/Server.antt =====
-- The server around the protocols: aras/src/{scope,types,service,server}.rs and the configuration in
-- aras_py/src/lib.rs.
pub mod Scopes
pub mod Subprotocols
pub mod Config
pub mod Python
pub mod Run
pub mod Lifetime
pub mod Settings
pub mod Service
pub mod Layers
pub mod Serving
pub mod Accept
pub mod Sessions
pub mod Protocol
