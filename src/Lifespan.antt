-- ===== src/Lifespan.antt =====
-- aras/src/protocols/lifespan.rs: the startup and the shutdown of an application.
pub mod Handler
pub mod Answers
pub mod Events
pub mod Failures
