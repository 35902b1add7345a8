-- ===== src/Lib.antt =====
-- Backlot: the backend that a contact-centre agent (Genesys AVA) calls to look up a subscriber,
-- diagnose and repair their home network, and sell and confirm an upgrade.
--
-- The agent calls the flat routes of app/gx/routes.py. A route normalizes the caller's
-- identifier (app/gx/normalize.py), resolves it to a party (app/modules/profile/service.py),
-- and then reads or acts through a module: the network module diagnoses the loaded topology and
-- runs verbs on it, the orders module places and confirms orders from the offer catalogue, and
-- the event store records what happened. Routes that act commit what a verb wrote or roll it
-- back. A middleware asks every such call for an API key. The console under /admin, which has
-- its own Basic auth, stages scenarios (app/scenarios/engine.py) on a tenant's rows and resets
-- them to what its seed pack describes (app/seed).
--
-- Which file models which part:
-- - Base and its children: Python's tests, lists, integers, texts as lists of code points,
--   dicts as association lists, min and max by a key, and stable sorting (ORDER BY).
-- - Platform: what is not in the repository, as a record: the uuid module, Unicode tables, the
--   database's collation, SHA-256, json.loads. Every definition that uses it takes it as an
--   instance argument. Its one law is that a printed uuid parses back. An id is a number that
--   is only compared.
-- - Store: the tables of app/core/models.py (Store/Spine), app/modules/network/models.py
--   (Store/Home), app/modules/orders/models.py, app/events/models.py and
--   app/scenarios/models.py (Store/Journal), the tenant's config_json as the code reads it
--   (Store/Settings), and the session of a request as a committed and a current store
--   (Store/Tables). A call that may raise returns a Result; scalar_one_or_none raises on a
--   second row.
-- - Events: app/events/service.py. Database defaults of a new row (a fresh id, now()) are a
--   Stamp that the caller of a function passes in.
-- - Profile: app/modules/profile/service.py, app/core/hashing.py and app/core/tenancy.py.
-- - Network: app/modules/network: config.py (Network/Config), service.py (Network/Home),
--   faults.py (Network/Faults), actions.py (Network/Actions), coverage.py (Network/Coverage),
--   devices.py (Network/Devices) and telemetry.py (Network/Telemetry). Network/Repair holds
--   what the verbs do to a home that is read again.
-- - Offers: app/modules/offers/service.py. Prices are pence.
-- - Orders: app/modules/orders/service.py (Orders/Service) and actions.py (Orders/Actions); the
--   other files hold what is proved of them.
-- - Gx: app/gx: normalize.py (Gx/Normalize), masking.py (Gx/Masking), schemas.py (Gx/Schemas)
--   and routes.py (Gx/Routes).
-- - Gx/Ava: app/gx/ava.py, the check of data-action schemas, over a tree of JSON values;
--   Gx/Ava/Sound says at which places it looks.
-- - Gx/Contracts: app/gx/contracts.py, `build_action` and its checks; Gx/Contracts/Templates
--   has the escaping of inputs and the two patterns that look for them.
-- - Seed: app/seed: the entries of a pack (Seed/Pack), what is taken from uuid, str.format and
--   Faker, as a record (Seed/Tools), merging and pruning on one table (Seed/Upsert), the rows
--   and the writes of network.py (Seed/Rows, Seed/Network) and of generator.py (Seed/Spine,
--   Seed/Generator). A pack's entries are there where the code indexes them; a profile or an
--   access point that is named and missing raises KeyError.
-- - Scenarios: app/scenarios/engine.py: the columns of the entities (Scenarios/Columns), the
--   packs and their validation (Scenarios/Packs), the update statement (Scenarios/Statements),
--   reset and apply (Scenarios/Engine). What the database makes of a value of a pack is the
--   record Statements.
-- - Admin: app/auth/middleware.py and app/admin/auth.py (Admin/Gate), app/admin/service.py
--   (Admin/States, Admin/Activity) and app/admin/routes.py (Admin/Routes); hmac.compare_digest
--   is the record Secrets.
-- - Samples: a small platform and store on which the theorems are applied.
--
-- Human-readable texts (result_summary, a coverage note, a status phrase) are values of data
-- types that keep the sentence apart and hold what it interpolates. All loops of the code run
-- over lists and are structural recursion, so no definition needs fuel, but for printing a
-- number: digits_from is given n + 1 for a number n, which has no more digits than that.
-- Integers are unbounded, as in Python; the width of the database's columns is not modelled. A
-- row that a verb changes is written where its key stands in the table.
--
-- Not modelled: the unflattened reads of the v1 routes, the list of data actions and the export
-- of their contracts (the rest of app/gx/contracts.py), the command line of the seeder and
-- branding, the templates of the console, application assembly and migrations. Concurrent
-- requests, ORM caching, the CHECK and unique constraints of the tables (but for the update
-- statement of a scenario, which the database may refuse) and JSON serialization are not
-- modelled either.
pub mod Base
pub mod Platform
pub mod Store
pub mod Events
pub mod Network
pub mod Offers
pub mod Orders
pub mod Profile
pub mod Gx
pub mod Samples
pub mod Seed
pub mod Scenarios
pub mod Admin
