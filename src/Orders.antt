-- ===== src/Orders.antt =====
-- Order persistence (app/modules/orders/service.py). The price is in pence.
pub mod Actions
pub mod Service
pub mod Live
pub mod Confirm
pub mod Sound
pub mod Found
