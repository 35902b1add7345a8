-- ===== src/Scenarios.antt =====
-- Scenarios (app/scenarios/).
pub mod Columns
pub mod Packs
pub mod Statements
pub mod Engine
pub mod Fields
pub mod Kept
pub mod Scope
pub mod Scopes
pub mod Scoped
pub mod Staging
pub mod Applied
pub mod Baseline
pub mod Cleared
pub mod Restored
