-- ===== src/Admin/States.antt =====
-- What each subscriber's network looks like (`subscriber_states` of app/admin/service.py). The
-- relationship `Party.identities` is the identities of the table whose `party_id` is the party's.
use genesys_cx_demo_harness.Base.{
  ℕ, Bool, true, false, Text, text_eq, ℤ, pos, List, [], filter, length, find, first, min_by, none,
  some, get_or, ◌==◌, if◌then◌else◌, sort_by,
}
use genesys_cx_demo_harness.Platform.{Platform}
use genesys_cx_demo_harness.Store.{Tenant, Party, Identity, ConnectedDevice, Db, Result, ok, ◌>>=◌}
use genesys_cx_demo_harness.Network.Config.{network_config}
use genesys_cx_demo_harness.Network.Home.{Topology, has_nothing, load_topology}
use genesys_cx_demo_harness.Network.Faults.{no_fault, build_verdict}
use genesys_cx_demo_harness.Seed.Rows.{each}

pub record SubscriberState : Type 0 where
  pub party_id : Text
  pub display_name : Text
  pub identifier : Text
  pub tier : Text
  pub has_network : Bool
  pub healthy : Bool
  pub fault_type : Text
  pub recommended_action : Text
  pub wan_status : Text
  pub extender_status : Text
  pub worst_device_label : Text
  pub worst_device_band : Text
  pub worst_device_rssi : ℤ

-- `primary.value if primary else ""`
unfoldable shown_identifier : List Identity → Text
shown_identifier ids = elim (find (λ (i : Identity). i.is_primary) ids) [
  | some i ↦ i.value
  | none ↦ elim (first ids) [ none ↦ [] | some i ↦ i.value ]
]

module _ ⦃platform : Platform⦄ where
  unfoldable pub state_of : Tenant → Db → Party → Topology → SubscriberState
  unfolding shown_identifier
  state_of tenant db party topology =
      let identifier =
        shown_identifier (filter (λ (i : Identity). i.party_id == party.party_id) db.identities) in
      if has_nothing topology
      then record {
        party_id = platform.show_uuid party.party_id;
        display_name = party.display_name;
        identifier = identifier;
        tier = get_or party.tier [];
        has_network = false;
        healthy = false;
        fault_type = [];
        recommended_action = [];
        wan_status = [];
        extender_status = [];
        worst_device_label = [];
        worst_device_band = [];
        worst_device_rssi = pos 0;
      }
      else (let verdict = build_verdict topology (network_config tenant) in
          let worst = min_by (λ (d : ConnectedDevice). d.rssi) topology.devices in
          record {
            party_id = platform.show_uuid party.party_id;
            display_name = party.display_name;
            identifier = identifier;
            tier = get_or party.tier [];
            has_network = true;
            healthy = text_eq verdict.fault_type no_fault;
            fault_type = verdict.fault_type;
            recommended_action = verdict.recommended_action;
            wan_status = elim topology.gateway [ none ↦ [] | some g ↦ g.wan_status ];
            extender_status = verdict.extender_status;
            worst_device_label = elim worst [ none ↦ [] | some d ↦ d.label ];
            worst_device_band = elim worst [ none ↦ [] | some d ↦ d.band ];
            worst_device_rssi = elim worst [ none ↦ pos 0 | some d ↦ d.rssi ];
          })

  -- One turn of the loop.
  unfoldable pub subscriber_state : Db → Tenant → Party → Result SubscriberState
  unfolding state_of
  subscriber_state db tenant party = do
    topology ← load_topology db tenant party.party_id
    ok (state_of tenant db party topology)

  -- ORDER BY display_name
  unfoldable tenant_parties : Db → Tenant → List Party
  tenant_parties db tenant =
      sort_by (λ (a : Party) b. platform.text_le a.display_name b.display_name)
        (filter (λ (p : Party). p.tenant_id == tenant.tenant_id) db.parties)

  unfoldable pub subscriber_states : Db → Tenant → Result (List SubscriberState)
  unfolding tenant_parties
  subscriber_states db tenant = each (subscriber_state db tenant) (tenant_parties db tenant)

unfoldable identity_count : Db → Tenant → ℕ
identity_count db tenant =
    length (filter (λ (i : Identity). i.tenant_id == tenant.tenant_id) db.identities)
