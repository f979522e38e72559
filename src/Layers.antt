-- ===== src/Layers.antt =====
-- aras/src/layers/error_handler.rs: errors of the inner services become responses.
pub mod ErrorHandler
pub mod Responses
