-- ===== src/Samples/Homes.antt =====
-- The theorems on home networks, applied.
use genesys_cx_demo_harness.Base.{Bool, false, not, length, All}
use genesys_cx_demo_harness.Network.Home.{has_nothing}
use genesys_cx_demo_harness.Network.Telemetry.{emit_network_telemetry}
use genesys_cx_demo_harness.Gx.Routes.Network.{status_of}
use genesys_cx_demo_harness.Gx.Routes.Agree.{emit_network_telemetry-status_of}
use genesys_cx_demo_harness.Samples.{first_stamp}
use genesys_cx_demo_harness.Network.Devices.{DeviceView, describe_devices}
use genesys_cx_demo_harness.Network.Devices.Weakest.{
  IsWeakestFirst, Shows, describe_devices-IsSorted,
}
use genesys_cx_demo_harness.Base.{none, Option}
use genesys_cx_demo_harness.Network.Home.Owned.{ShowsOwn, load_topology-owned}
use genesys_cx_demo_harness.Offers.{
  Offer, offer_of, catalogue, all_hold, is_eligible, first_eligible, best_offer,
}
use genesys_cx_demo_harness.Offers.Choice.{AllIneligible, IsFirstEligible, best_offer-first}
use genesys_cx_demo_harness.Samples.{mesh, stuck_laptop}
use genesys_cx_demo_harness.Base.{Option}
use genesys_cx_demo_harness.Base.{
  min_by, max_by, best, best_from, sort_by, insert_by, insert, merge, leb_ℤ, ltb_ℤ, max_ℤ, ◌≡◌, ◌<◌,
  refl, true, lit, text_eq, one_of, get_or, lookup, [], ◌∷◌, Memᴰ, some, sym, ◌∙◌, ◌⊎◌,
}
use genesys_cx_demo_harness.Store.{AccessPoint, ConnectedDevice, Db, ok}
use genesys_cx_demo_harness.Network.Config.{NetworkConfig, network_config}
use genesys_cx_demo_harness.Network.Home.{
  extenders, ap_by_id, bands_on, Topology, load_topology, home_of,
}
use genesys_cx_demo_harness.Network.Faults.{
  choose, detect_all, collect, extender_flapping, device_band_stuck, wan_degraded, stuck_devices,
  is_stuck, unhealthy_extenders, is_unhealthy, extender_status, Finding, build_verdict, no_fault,
}
use genesys_cx_demo_harness.Network.Faults.Decision.{Quiet, FirstFault, build_verdict-decides}
use genesys_cx_demo_harness.Network.Actions.{
  find_ap, cycle_extender, cycle_ap, write_ap, ActionOutcome, band_steer, reboot_extender,
  reboot_ap,
}
use genesys_cx_demo_harness.Network.Coverage.{assess_coverage}
use genesys_cx_demo_harness.Network.Repair.Reload.{IsKeyed}
use genesys_cx_demo_harness.Network.Repair.Reboot.{Heals}
use genesys_cx_demo_harness.Network.Repair.Heal.{
  troubles, band_steer-verdict, reboot_extender-verdict,
}
use genesys_cx_demo_harness.Network.Repair.Durable.{reboot_extender-coverage, reboot_ap-coverage}
use genesys_cx_demo_harness.Samples.{
  toy, acme, gateway, stuck_home, flapping_home, flapping_extender,
}

abbrev config : NetworkConfig
config = network_config acme

only {ℓ} : {A : Type ℓ} {x y z : A} → Memᴰ y (x ∷ []) → Memᴰ z (x ∷ []) → y ≡ z
only (Memᴰ.head e) (Memᴰ.head f) = e ∙ sym f
only (Memᴰ.head e) (Memᴰ.tail m) = elim m [ ]
only (Memᴰ.tail m) n = elim m [ ]

stuck_home-IsKeyed : IsKeyed stuck_home
stuck_home-IsKeyed = record { device_key = λ x y m n e. only m n; ap_key = λ x y m n e. only m n }

flapping_home-IsKeyed : IsKeyed flapping_home
flapping_home-IsKeyed = record {
  device_key = λ x y m n e. only m n;
  ap_key = λ x y m n e. only m n;
}

config-Heals : Heals config
unfolding network_config one_of text_eq leb_ℤ
config-Heals = record { online_is_fine = refl; backhaul_is_fine = refl }

abbrev topology_of : Db → Topology
topology_of db = home_of db acme 2 (some gateway)

load_stuck : load_topology stuck_home acme 2 ≡ ok (topology_of stuck_home)
unfolding load_topology home_of sort_by insert_by
load_stuck = refl

load_flapping : load_topology flapping_home acme 2 ≡ ok (topology_of flapping_home)
unfolding load_topology home_of sort_by insert_by
load_flapping = refl

stuck_verdict : (build_verdict (topology_of stuck_home) config).fault_type ≡ lit "device_band_stuck"
unfolding build_verdict choose network_config lookup detect_all collect extender_flapping
    device_band_stuck wan_degraded stuck_devices is_stuck unhealthy_extenders is_unhealthy
    extender_status extenders home_of ap_by_id bands_on min_by max_by best best_from sort_by
    insert_by text_eq one_of insert merge leb_ℤ ltb_ℤ
stuck_verdict = refl

flapping_verdict :
    (build_verdict (topology_of flapping_home) config).fault_type ≡ lit "extender_flapping"
unfolding build_verdict choose network_config lookup detect_all collect extender_flapping
    device_band_stuck wan_degraded stuck_devices is_stuck unhealthy_extenders is_unhealthy
    extender_status extenders home_of ap_by_id bands_on min_by max_by best best_from sort_by
    insert_by text_eq one_of insert merge leb_ℤ ltb_ℤ
flapping_verdict = refl

build_verdict-decides_example :
    let v = build_verdict (topology_of stuck_home) config in
    ((v.fault_type ≡ no_fault)
      × (v.primary_target ≡ [])
      × Quiet (topology_of stuck_home) config config.fault_precedence)
    ⊎ ((f : Finding) × FirstFault (topology_of stuck_home) config config.fault_precedence f
        × (v.fault_type ≡ f.fault_type)
        × (v.primary_target ≡ f.target)
        × (v.primary_target_kind ≡ f.target_kind)
        × (v.primary_target_label ≡ f.target_label)
        × (v.recommended_action
            ≡ get_or (lookup f.fault_type config.recommended_actions) (lit "none")))
build_verdict-decides_example = build_verdict-decides (topology_of stuck_home) config

band_steer-verdict_example :
    (out : ActionOutcome) × (db' : Db) × (t' : Topology) × (band_steer stuck_home
        (topology_of stuck_home)
        (build_verdict (topology_of stuck_home) config).primary_target
        []
        config
      ≡ (out, db'))
    × (out.ok ≡ true)
    × (load_topology db' acme 2 ≡ ok t')
    × (troubles t' config < troubles (topology_of stuck_home) config)
band_steer-verdict_example =
    band_steer-verdict stuck_home acme 2 config stuck_home-IsKeyed load_stuck stuck_verdict

reboot_extender-verdict_example :
    (out : ActionOutcome) × (db' : Db) × (t' : Topology) × (reboot_extender flapping_home
        (topology_of flapping_home)
        (build_verdict (topology_of flapping_home) config).primary_target
        []
        config
      ≡ (out, db'))
    × (out.ok ≡ true)
    × (load_topology db' acme 2 ≡ ok t')
    × (troubles t' config < troubles (topology_of flapping_home) config)
reboot_extender-verdict_example =
    reboot_extender-verdict flapping_home acme 2 config flapping_home-IsKeyed config-Heals
      load_flapping flapping_verdict

abbrev rebooted : Db
rebooted = record flapping_home {
  access_points =
      record flapping_extender {
        status = lit "online";
        backhaul_quality = config.healthy_backhaul_quality;
      }
      ∷ [];
}

load_rebooted :
    load_topology
      (reboot_extender flapping_home (topology_of flapping_home) (11 ∷ []) [] config).1
      acme
      2
    ≡ ok (topology_of rebooted)
unfolding load_topology reboot_extender find_ap cycle_extender network_config write_ap home_of
    ap_by_id sort_by insert_by text_eq
load_rebooted = refl

load_rebooted_ap :
    load_topology (reboot_ap flapping_home (topology_of flapping_home) (11 ∷ []) [] config).1 acme 2
    ≡ ok (topology_of rebooted)
unfolding load_topology reboot_ap find_ap cycle_ap network_config write_ap home_of ap_by_id sort_by
    insert_by text_eq max_ℤ leb_ℤ ltb_ℤ
load_rebooted_ap = refl

reboot_extender-coverage_example :
    assess_coverage (topology_of rebooted) config
    ≡ assess_coverage (topology_of flapping_home) config
reboot_extender-coverage_example =
    reboot_extender-coverage flapping_home acme 2 (11 ∷ []) [] config load_flapping load_rebooted

reboot_ap-coverage_example :
    assess_coverage (topology_of rebooted) config
    ≡ assess_coverage (topology_of flapping_home) config
reboot_ap-coverage_example =
    reboot_ap-coverage flapping_home acme 2 (11 ∷ []) [] config load_flapping load_rebooted_ap

extender_shown : Memᴰ flapping_extender (topology_of stuck_home).access_points
unfolding home_of sort_by insert_by
extender_shown = Memᴰ.head refl

laptop_shown : Memᴰ stuck_laptop (topology_of stuck_home).devices
unfolding home_of sort_by insert_by
laptop_shown = Memᴰ.head refl

abbrev mesh_offer : Offer
mesh_offer = offer_of [] mesh

load_topology-owned_example :
    ShowsOwn
      (λ (a : AccessPoint). a.tenant_id)
      (λ a. a.party_id)
      1
      2
      stuck_home.access_points
      (topology_of stuck_home).access_points
    × ShowsOwn
        (λ (d : ConnectedDevice). d.tenant_id)
        (λ d. d.party_id)
        1
        2
        stuck_home.devices
        (topology_of stuck_home).devices
load_topology-owned_example = load_topology-owned stuck_home acme 2 load_stuck

mesh_offered : best_offer acme (topology_of stuck_home) ≡ ok (some mesh_offer)
unfolding best_offer first_eligible is_eligible all_hold catalogue
mesh_offered = refl

best_offer-first_example :
    ((◌≡◌ {A = Option Offer} (some mesh_offer) none)
      × AllIneligible (topology_of stuck_home) config (catalogue acme))
    ⊎ ((o : Offer) × (◌≡◌ {A = Option Offer} (some mesh_offer) (some o))
        × IsFirstEligible (topology_of stuck_home) config (catalogue acme) o)
best_offer-first_example = best_offer-first acme (topology_of stuck_home) mesh_offered

describe_devices-IsSorted_example :
    IsWeakestFirst (describe_devices (topology_of stuck_home) config)
    × (length (describe_devices (topology_of stuck_home) config)
        ≡ length (topology_of stuck_home).devices)
    × All
        (λ v. (d : ConnectedDevice) × Memᴰ d (topology_of stuck_home).devices × Shows v d)
        (describe_devices (topology_of stuck_home) config)
    × All
        (λ d.
          (v : DeviceView) × Memᴰ v (describe_devices (topology_of stuck_home) config) × Shows v d)
        (topology_of stuck_home).devices
describe_devices-IsSorted_example = describe_devices-IsSorted (topology_of stuck_home) config

stuck_home-ne-empty : has_nothing (topology_of stuck_home) ≡ false
unfolding has_nothing home_of
stuck_home-ne-empty = refl

emit_network_telemetry-status_of_example :
    (emitted : Bool) × (db' : Db) × (emit_network_telemetry acme 2 first_stamp stuck_home
      ≡ ok (emitted, db'))
    × (emitted ≡ not (status_of (topology_of stuck_home) acme (2 ∷ [])).healthy)
    × (((emitted ≡ true) × (length db'.events ≡ 1)) ⊎ ((emitted ≡ false) × (db' ≡ stuck_home)))
emit_network_telemetry-status_of_example =
    emit_network_telemetry-status_of acme 2 (2 ∷ []) first_stamp stuck_home load_stuck
      stuck_home-ne-empty
