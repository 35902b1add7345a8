-- ===== src/Scenarios/Scopes.antt =====
-- Two stores that agree but for the rows that a scenario names.
use genesys_cx_demo_harness.Base.{ℕ, ◌≡◌, refl, ◌∙◌, Bool, not, Text, List, [], map, filter}
use genesys_cx_demo_harness.Store.{Tenant, Db}
use genesys_cx_demo_harness.Scenarios.Statements.{targeted}
use genesys_cx_demo_harness.Scenarios.Kept.{gateway_ids, access_point_ids, radio_ids, device_ids}

-- The rows of other tenants, and of subscribers that are not targeted.
abbrev pub untargeted : Tenant → List ℕ → ℕ × ℕ × ℕ × Text → Bool
untargeted tenant party_ids (id, row_tenant, row_party, seed_key) =
    not (targeted tenant party_ids row_tenant row_party)

-- Two states of a table with the same rows by key, owner and name, in which the rows that are not
-- targeted are the same.
abbrev TableScoped :
    {Row : Type 0} → (Row → ℕ × ℕ × ℕ × Text) → Tenant → List ℕ → List Row → List Row → Type 0
TableScoped ids tenant party_ids rows rows' =
    (map ids rows' ≡ map ids rows)
    × (filter (λ r. untargeted tenant party_ids (ids r)) rows'
        ≡ filter (λ r. untargeted tenant party_ids (ids r)) rows)

abbrev without_network_and_logs : Db → Db
without_network_and_logs db = record db {
  gateways = [];
  access_points = [];
  radios = [];
  devices = [];
  events = [];
  scenario_events = [];
}

-- Two stores that agree so on the network tables, and are the same but for these, the events and the
-- scenario log.
pub record IsScoped (tenant : Tenant) (party_ids : List ℕ) (db db' : Db) : Type 0 where
  pub gateways_scoped : TableScoped gateway_ids tenant party_ids db.gateways db'.gateways
  pub access_points_scoped :
      TableScoped access_point_ids tenant party_ids db.access_points db'.access_points
  pub radios_scoped : TableScoped radio_ids tenant party_ids db.radios db'.radios
  pub devices_scoped : TableScoped device_ids tenant party_ids db.devices db'.devices
  pub others_same : without_network_and_logs db' ≡ without_network_and_logs db

pub IsScoped-refl :
    (tenant : Tenant) (party_ids : List ℕ) (db : Db) → IsScoped tenant party_ids db db
IsScoped-refl tenant party_ids db = record {
  gateways_scoped = (refl, refl);
  access_points_scoped = (refl, refl);
  radios_scoped = (refl, refl);
  devices_scoped = (refl, refl);
  others_same = refl;
}

table_trans :
    {Row : Type 0} (ids : Row → ℕ × ℕ × ℕ × Text) (tenant : Tenant) (party_ids : List ℕ)
    (a b c : List Row)
    → TableScoped ids tenant party_ids a b
    → TableScoped ids tenant party_ids b c
    → TableScoped ids tenant party_ids a c
table_trans ids tenant party_ids a b c h k = (k.0 ∙ h.0, k.1 ∙ h.1)

pub IsScoped-trans :
    (tenant : Tenant) (party_ids : List ℕ) (a b c : Db)
    → IsScoped tenant party_ids a b
    → IsScoped tenant party_ids b c
    → IsScoped tenant party_ids a c
IsScoped-trans tenant party_ids a b c h k = record {
  gateways_scoped =
      table_trans gateway_ids tenant party_ids _ _ _ h.gateways_scoped k.gateways_scoped;
  access_points_scoped =
      table_trans access_point_ids tenant party_ids _ _ _ h.access_points_scoped
        k.access_points_scoped;
  radios_scoped = table_trans radio_ids tenant party_ids _ _ _ h.radios_scoped k.radios_scoped;
  devices_scoped = table_trans device_ids tenant party_ids _ _ _ h.devices_scoped k.devices_scoped;
  others_same = k.others_same ∙ h.others_same;
}
