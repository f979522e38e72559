-- ===== src/Communication.antt =====
-- aras/src/communication.rs: how the server talks to one run of an application.
pub mod Interface
pub mod Waiting
pub mod Handle
pub mod Channel
pub mod Factory
pub mod Delivery
pub mod Conserved
pub mod Receiving
pub mod Exited
pub mod Callers
pub mod Lost
