-- ===== src/Network/Home.antt =====
-- A subscriber's topology and how it is loaded (app/modules/network/service.py). The relationship
-- `AccessPoint.radios` is the radios of the table whose `ap_id` is the access point's.
pub mod Owned
use genesys_cx_demo_harness.Base.{
  ℕ, Bool, ◌&&◌, Text, lit, text_eq, List, map, filter, find, is_empty, is_some, not, Option, none,
  some, [], ◌==◌, if◌then◌else◌, sort_by,
}
use genesys_cx_demo_harness.Platform.{Platform}
use genesys_cx_demo_harness.Store.{
  Tenant, Gateway, AccessPoint, Radio, ConnectedDevice, Db, Result, ok, ◌>>=◌, scalar_one_or_none,
}

pub record Topology : Type 0 where
  pub party_id : ℕ
  pub gateway : Option Gateway
  pub access_points : List AccessPoint
  pub radios : List Radio
  pub devices : List ConnectedDevice

abbrev pub is_extender : AccessPoint → Bool
is_extender ap = text_eq ap.kind (lit "extender")

unfoldable pub extenders : Topology → List AccessPoint
extenders t = filter is_extender t.access_points

unfoldable pub ap_by_id : Topology → ℕ → Option AccessPoint
ap_by_id t ap_id = find (λ ap. ap.ap_id == ap_id) t.access_points

unfoldable pub bands_on : Topology → ℕ → List Text
unfolding ap_by_id
bands_on t ap_id = elim (ap_by_id t ap_id) [
  | none ↦ []
  | some ap ↦ map (λ (r : Radio). r.band) (filter (λ r. r.ap_id == ap.ap_id) t.radios)
]

-- `Topology.is_empty`
unfoldable pub has_nothing : Topology → Bool
has_nothing t = not (is_some t.gateway) && is_empty t.access_points && is_empty t.devices

-- The row belongs to this tenant and this subscriber.
abbrev pub scoped : ℕ → ℕ → ℕ → ℕ → Bool
scoped tenant_id party_id row_tenant row_party = row_tenant == tenant_id && row_party == party_id

module _ ⦃platform : Platform⦄ where
  -- ORDER BY kind, label
  abbrev pub by_kind_and_label : AccessPoint → AccessPoint → Bool
  by_kind_and_label a b =
      if platform.text_le a.kind b.kind && platform.text_le b.kind a.kind
      then platform.text_le a.label b.label
      else platform.text_le a.kind b.kind

  -- ORDER BY label
  abbrev pub by_label : ConnectedDevice → ConnectedDevice → Bool
  by_label a b = platform.text_le a.label b.label

  -- The home with this gateway: the access points and devices of the subscriber, in order.
  unfoldable pub home_of : Db → Tenant → ℕ → Option Gateway → Topology
  home_of db tenant party_id gateway = record {
    party_id = party_id;
    gateway = gateway;
    access_points =
        sort_by by_kind_and_label
          (filter (λ a. scoped tenant.tenant_id party_id a.tenant_id a.party_id) db.access_points);
    radios = db.radios;
    devices =
        sort_by by_label
          (filter (λ d. scoped tenant.tenant_id party_id d.tenant_id d.party_id) db.devices);
  }

  unfoldable pub load_topology : Db → Tenant → ℕ → Result Topology
  unfolding home_of
  load_topology db tenant party_id =
      scalar_one_or_none
        (filter (λ g. scoped tenant.tenant_id party_id g.tenant_id g.party_id) db.gateways)
      >>= λ gateway. ok (home_of db tenant party_id gateway)

  -- ORDER BY band
  unfoldable pub radios_for : Db → Tenant → ℕ → List Radio
  radios_for db tenant party_id =
      sort_by (λ (a b : Radio). platform.text_le a.band b.band)
        (filter (λ r. scoped tenant.tenant_id party_id r.tenant_id r.party_id) db.radios)
