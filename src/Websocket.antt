-- ===== src/Websocket.antt =====
-- aras/src/protocols/websocket.rs: one websocket connection.
pub mod Library
pub mod Builder
pub mod Splitting
pub mod Assembly
pub mod Event
pub mod Machine
pub mod Trace
pub mod Loop
pub mod Handshake
pub mod Opening
pub mod Closing
pub mod Exchange
pub mod Passing
pub mod Relay
pub mod Blocks
pub mod Codes
pub mod Ending
