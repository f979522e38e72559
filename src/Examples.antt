-- ===== src/Examples.antt =====
-- The theorems at concrete inputs.
pub mod Fixtures
pub mod Lifespans
pub mod Exchanges
pub mod Connections
pub mod Servers
pub mod Interpreters
pub mod Channels
pub mod Deliveries
pub mod Pythons
pub mod Relays
pub mod Sessions
