-- ===== src/Offers.antt =====
-- The offer catalogue and eligibility (app/modules/offers/service.py).
pub mod Choice
use genesys_cx_demo_harness.Base.{
  ℕ, Bool, true, false, not, Text, lit, text_eq, one_of, Dict, lookup, pos, leb_ℤ, List, [], ◌∷◌,
  map, filter, any, find, length, Option, none, some, get_or, if◌then◌else◌,
}
use genesys_cx_demo_harness.Store.{
  Tenant, AccessPoint, ConnectedDevice, OfferEntry, RuleValue, Result, ok, raised,
  unknown_eligibility_rule, ◌>>=◌,
}
use genesys_cx_demo_harness.Network.Config.{NetworkConfig, network_config}
use genesys_cx_demo_harness.Network.Home.{Topology, extenders}
use genesys_cx_demo_harness.Network.Coverage.{assess_coverage, is_weak, id_in}

-- The price is in pence.
pub record Offer : Type 0 where
  pub offer_id : Text
  pub name : Text
  pub price_gbp : ℕ
  pub reason : Text
  pub eta_text : Text
  pub eligibility : Dict RuleValue

abbrev pub Predicate : Type 0
Predicate = Topology → RuleValue → NetworkConfig → Bool

-- `a == b` on truth values.
abbrev pub same : Bool → Bool → Bool
same true b = b
same false b = not b

unfoldable pub devices_on_extenders : Topology → List ConnectedDevice
devices_on_extenders t =
    let ids = map (λ (ap : AccessPoint). ap.ap_id) (extenders t) in
    filter (λ d. id_in d.connected_ap_id ids) t.devices

unfoldable pub coverage_is_weak : Predicate
coverage_is_weak t value cfg = same (is_weak (assess_coverage t cfg)) value.truth

unfoldable pub device_on_extender_rssi_at_or_below : Predicate
device_on_extender_rssi_at_or_below t value cfg =
    any (λ (d : ConnectedDevice). leb_ℤ d.rssi value.number) (devices_on_extenders t)

unfoldable pub any_device_rssi_at_or_below : Predicate
any_device_rssi_at_or_below t value cfg =
    any (λ (d : ConnectedDevice). leb_ℤ d.rssi value.number) t.devices

unfoldable pub extender_backhaul_at_or_below : Predicate
extender_backhaul_at_or_below t value cfg =
    any (λ (ap : AccessPoint). leb_ℤ ap.backhaul_quality value.number) (extenders t)

unfoldable pub extender_status_in : Predicate
extender_status_in t value cfg =
    any (λ (ap : AccessPoint). one_of ap.status value.texts) (extenders t)

unfoldable pub min_extenders : Predicate
min_extenders t value cfg = leb_ℤ value.number (pos (length (extenders t)))

unfoldable pub min_devices : Predicate
min_devices t value cfg = leb_ℤ value.number (pos (length t.devices))

-- `PREDICATES`
abbrev pub predicates : Dict Predicate
predicates =
    (lit "coverage_is_weak", coverage_is_weak)
    ∷ (lit "device_on_extender_rssi_at_or_below", device_on_extender_rssi_at_or_below)
    ∷ (lit "any_device_rssi_at_or_below", any_device_rssi_at_or_below)
    ∷ (lit "extender_backhaul_at_or_below", extender_backhaul_at_or_below)
    ∷ (lit "extender_status_in", extender_status_in)
    ∷ (lit "min_extenders", min_extenders)
    ∷ (lit "min_devices", min_devices)
    ∷ []

abbrev pub offer_of : Text → OfferEntry → Offer
offer_of default_eta raw = record {
  offer_id = raw.offer_id;
  name = raw.name;
  price_gbp = raw.price_gbp;
  reason = get_or raw.reason [];
  eta_text = get_or raw.eta_text default_eta;
  eligibility = raw.eligibility;
}

-- The tenant's offers, in pack order.
unfoldable pub catalogue : Tenant → List Offer
catalogue tenant =
    let cfg = tenant.config_json.offers in
    map (offer_of (get_or cfg.default_eta_text [])) cfg.catalogue

-- The loop of `is_eligible`.
unfoldable pub all_hold : Dict Predicate → Dict RuleValue → Topology → NetworkConfig → Result Bool
all_hold table [] t cfg = ok true
all_hold table ((rule, value) ∷ rules) t cfg =
    let rest = all_hold table rules t cfg in
    elim (lookup rule table) [
      | none ↦ raised (unknown_eligibility_rule rule)
      | some check ↦ if check t value cfg then rest else ok false
    ]

unfoldable pub is_eligible : Offer → Topology → NetworkConfig → Result Bool
unfolding all_hold
is_eligible offer t cfg = all_hold predicates offer.eligibility t cfg

-- The loop of `best_offer`.
unfoldable pub first_eligible : List Offer → Topology → NetworkConfig → Result (Option Offer)
first_eligible [] t cfg = ok none
first_eligible (offer ∷ offers) t cfg =
    let rest = first_eligible offers t cfg in
    is_eligible offer t cfg >>= λ eligible. if eligible then ok (some offer) else rest

unfoldable pub best_offer : Tenant → Topology → Result (Option Offer)
best_offer tenant t = first_eligible (catalogue tenant) t (network_config tenant)

unfoldable pub find_offer : Tenant → Text → Option Offer
find_offer tenant offer_id = find (λ o. text_eq o.offer_id offer_id) (catalogue tenant)
