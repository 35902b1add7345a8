-- ===== src/Store.antt =====
-- The rows of the database (app/core/models.py, app/modules/network/models.py,
-- app/modules/orders/models.py, app/events/models.py, app/scenarios/models.py), the tables that
-- hold them, and a request's session over them (app/db.py).
--
-- Columns that the database fills and that no code reads (`updated_at`, `created_at` of the
-- spine) have no field. A timestamp is a number. A JSON bag has the fields that the code reads.
mod Settings
mod Spine
mod Home
mod Journal
mod Tables
pub use Settings.*
pub use Spine.*
pub use Home.*
pub use Journal.*
pub use Tables.*
