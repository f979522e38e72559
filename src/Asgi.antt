-- ===== src/Asgi.antt =====
-- The ASGI vocabulary: package asgispec.
pub mod Events
pub mod Scope
pub mod Spec
