-- ===== src/Gx.antt =====
-- The surface that Genesys binds to (app/gx/).
pub mod Normalize
pub mod Ava
pub mod Contracts
pub mod Masking
pub mod Schemas
pub mod Routes
