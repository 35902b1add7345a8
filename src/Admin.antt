-- ===== src/Admin.antt =====
-- The gates of the service (app/auth/middleware.py, app/admin/auth.py) and the admin console
-- (app/admin/service.py, app/admin/routes.py).
pub mod Gate
pub mod States
pub mod Activity
pub mod Routes
pub mod Guarded
pub mod Seen
