-- ===== src/Gx/Routes.antt =====
-- The gx routes (app/gx/routes.py): what they share, and one module for each group.
pub mod Shared
pub mod Customer
pub mod Network
pub mod Journal
pub mod Order
pub mod Safety
pub mod Verify
pub mod Agree
