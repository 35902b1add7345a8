-- ===== src/Scenarios/Cleared.antt =====
-- What a reset clears, keeps and logs.
use genesys_cx_demo_harness.Base.{
  ℕ, ◌≡◌, refl, Bool, not, List, [], ◌∷◌, ◌++◌, filter, Option, none, some, arith, ◌==◌, lit,
}
use genesys_cx_demo_harness.Store.{Tenant, Event, CustomerOrder, ScenarioEvent, Db}
use genesys_cx_demo_harness.Events.{Stamp}
use genesys_cx_demo_harness.Seed.Rows.{NetworkRows}
use genesys_cx_demo_harness.Seed.Network.{write_networks}
use genesys_cx_demo_harness.Scenarios.Engine.{log, log_reset}
use genesys_cx_demo_harness.Scenarios.Baseline.{networks_of, restored}

abbrev pub spine : Db → Db
spine db = record db {
  gateways = [];
  access_points = [];
  radios = [];
  devices = [];
  events = [];
  orders = [];
  scenario_events = [];
}

-- The entry of the scenario log for a reset of so many rows.
abbrev reset_entry : Tenant → ℕ → Stamp → ScenarioEvent
reset_entry tenant rows stamp = record {
  event_id = stamp.id;
  tenant_id = tenant.tenant_id;
  action = lit "reset";
  scenario = [];
  rows_changed = rows;
  created_at = stamp.now;
}

abbrev reset_entries : Tenant → ℕ → Option Stamp → List ScenarioEvent
reset_entries tenant rows none = []
reset_entries tenant rows (some stamp) = reset_entry tenant rows stamp ∷ []

-- The store after has none of the tenant's events and orders, those of other tenants and the spine
-- of the store before, and its scenario log with the entry that was asked for.
pub record IsCleared (tenant : Tenant) (logged : Option Stamp) (rows : ℕ) (before after : Db)
    : Type 0 where
  pub own_events : filter (λ (e : Event). e.tenant_id == tenant.tenant_id) after.events ≡ []
  pub own_orders : filter (λ (o : CustomerOrder). o.tenant_id == tenant.tenant_id) after.orders ≡ []
  pub other_events :
      after.events ≡ filter (λ (e : Event). not (e.tenant_id == tenant.tenant_id)) before.events
  pub other_orders :
      after.orders
      ≡ filter (λ (o : CustomerOrder). not (o.tenant_id == tenant.tenant_id)) before.orders
  pub same_spine : spine after ≡ spine before
  pub logged_once :
      after.scenario_events ≡ reset_entries tenant rows logged ++ before.scenario_events

filter_none {ℓ} :
    {A : Type ℓ} (p : A → Bool) (xs : List A) → filter p (filter (λ x. not (p x)) xs) ≡ []
filter_none p [] = refl
filter_none p (x ∷ xs) = ground (arith, filter_none p xs)

pub restored-clears :
    (tenant : Tenant) (rows : Option NetworkRows) (logged : Option Stamp) (n : ℕ) (db : Db)
    → IsCleared tenant logged n db (log_reset tenant n logged (restored tenant rows db))
unfolding restored networks_of write_networks log
restored-clears tenant none none n db = record {
  own_events = filter_none (λ (e : Event). e.tenant_id == tenant.tenant_id) db.events;
  own_orders = filter_none (λ (o : CustomerOrder). o.tenant_id == tenant.tenant_id) db.orders;
  other_events = refl;
  other_orders = refl;
  same_spine = refl;
  logged_once = refl;
}
restored-clears tenant none (some stamp) n db = record {
  own_events = filter_none (λ (e : Event). e.tenant_id == tenant.tenant_id) db.events;
  own_orders = filter_none (λ (o : CustomerOrder). o.tenant_id == tenant.tenant_id) db.orders;
  other_events = refl;
  other_orders = refl;
  same_spine = refl;
  logged_once = refl;
}
restored-clears tenant (some rows) none n db = record {
  own_events = filter_none (λ (e : Event). e.tenant_id == tenant.tenant_id) db.events;
  own_orders = filter_none (λ (o : CustomerOrder). o.tenant_id == tenant.tenant_id) db.orders;
  other_events = refl;
  other_orders = refl;
  same_spine = refl;
  logged_once = refl;
}
restored-clears tenant (some rows) (some stamp) n db = record {
  own_events = filter_none (λ (e : Event). e.tenant_id == tenant.tenant_id) db.events;
  own_orders = filter_none (λ (o : CustomerOrder). o.tenant_id == tenant.tenant_id) db.orders;
  other_events = refl;
  other_orders = refl;
  same_spine = refl;
  logged_once = refl;
}
