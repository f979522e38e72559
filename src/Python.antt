-- ===== src/Python.antt =====
-- aras_py/src/convert.rs and wrappers.rs: events and scopes as Python objects, and the Python application
-- behind the interface of asgispec.
pub mod Library
pub mod Parse
pub mod Build
pub mod Scopes
pub mod Messages
pub mod Types
pub mod Dictionaries
pub mod Handed
pub mod Wrappers
pub mod Delivered
pub mod State
pub mod Token
