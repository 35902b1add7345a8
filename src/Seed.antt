-- ===== src/Seed.antt =====
-- Seeding from a tenant's pack (app/seed/).
pub mod Pack
pub mod Tools
pub mod Upsert
pub mod Rows
pub mod Network
pub mod Spine
pub mod Generator
pub mod Parties
