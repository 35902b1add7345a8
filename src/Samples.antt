-- ===== src/Samples.antt =====
-- A small platform and a small store on which the theorems are applied.
pub mod Orders
pub mod Homes
pub mod Callers
pub mod Seeds
pub mod Scenes
pub mod Resets
pub mod Gates
pub mod Contracts
pub mod Tenants
use genesys_cx_demo_harness.Base.{
  ℕ, ◌≡◌, refl, Bool, true, false, Text, lit, text_leb, leb, ltb, ◌&&◌, ◌-◌, ◌+◌, List, [], ◌∷◌,
  map, Option, none, some, ◌==◌, if◌then◌else◌, negsuc, pos,
}
use genesys_cx_demo_harness.Platform.{Platform, Json, object}
use genesys_cx_demo_harness.Store.{
  Tenant, Party, Identity, Verification, ContactPoint, Gateway, AccessPoint, Radio, ConnectedDevice,
  Db, Session, ConfigJson, NetworkOverride, CoverageOverride, MaskOverride, OffersConfig,
  OfferEntry, Event, CustomerOrder,
}
use genesys_cx_demo_harness.Events.{Stamp}

abbrev lower_char : ℕ → ℕ
lower_char c = if leb b'A' c && leb c b'Z' then c + 32 else c

abbrev upper_char : ℕ → ℕ
upper_char c = if leb b'a' c && leb c b'z' then c - 32 else c

-- A text of one character is an id.
abbrev parse_id : Text → Option ℕ
parse_id [] = none
parse_id (c ∷ []) = some c
parse_id (c ∷ d ∷ s) = none

instance abbrev pub toy : Platform
toy = record {
  show_uuid = λ u. u ∷ [];
  parse_uuid = parse_id;
  parse-show = λ u. refl;
  is_space = λ c. c == b' ';
  is_digit = λ c. leb b'0' c && leb c b'9';
  lower = map lower_char;
  upper = map upper_char;
  text_le = text_leb;
  sha256_hex = λ s. s;
  json_loads = λ s. some (object []);
}

abbrev pub no_mask : MaskOverride
no_mask = record { reveal_chars = none; mask_char = none; mask_length = none }

abbrev pub mesh : OfferEntry
mesh = record {
  offer_id = lit "mesh";
  name = lit "Mesh pack";
  price_gbp = 4900;
  reason = none;
  eta_text = some (lit "tomorrow");
  eligibility = [];
}

abbrev pub acme : Tenant
acme = record {
  tenant_id = 1;
  slug = lit "acme";
  display_name = lit "Acme";
  industry = lit "telco";
  config_json = record {
    country = some (lit "GB");
    network = record {
      poor_rssi_dbm = none;
      steer_target_band = none;
      steer_rssi_gain_db = none;
      steer_rssi_ceiling_dbm = none;
      flapping_ap_statuses = none;
      poor_backhaul_quality = none;
      healthy_backhaul_quality = none;
      wan_ok_statuses = none;
      coverage = record {
        edge_rssi_5ghz_dbm = none;
        edge_rssi_24ghz_dbm = none;
        min_cluster_size = none;
        single_worst_rssi_dbm = none;
      };
      fault_precedence = none;
      recommended_actions = [];
    };
    masked_name = no_mask;
    masked_email = no_mask;
    offers = record { default_eta_text = none; catalogue = mesh ∷ [] };
  };
}

abbrev pub ada : Party
ada = record {
  party_id = 2;
  tenant_id = 1;
  party_type = lit "person";
  display_name = lit "Ada Lovelace";
  tier = none;
}

abbrev pub ada_email : Identity
ada_email = record {
  identity_id = 3;
  tenant_id = 1;
  party_id = 2;
  id_type = lit "email";
  value = lit "ada@x.org";
  is_primary = true;
}

abbrev pub gateway : Gateway
gateway = record {
  gateway_id = 10;
  tenant_id = 1;
  party_id = 2;
  seed_key = lit "gw";
  model = lit "Hub";
  wan_status = lit "online";
  uptime_s = pos 60;
}

-- An extender with a poor backhaul, and with a good one.
abbrev pub flapping_extender : AccessPoint
flapping_extender = record {
  ap_id = 11;
  tenant_id = 1;
  party_id = 2;
  seed_key = lit "ap";
  label = lit "Loft";
  kind = lit "extender";
  model = lit "Pod";
  status = lit "flapping";
  backhaul_quality = pos 30;
}

abbrev pub radio_on : ℕ → Text → Radio
radio_on id band = record {
  radio_id = id;
  tenant_id = 1;
  party_id = 2;
  ap_id = 11;
  seed_key = lit "r";
  band = band;
  channel = pos 1;
  utilization = pos 10;
}

-- A laptop that hangs on the slow band.
abbrev pub stuck_laptop : ConnectedDevice
stuck_laptop = record {
  device_id = 20;
  tenant_id = 1;
  party_id = 2;
  connected_ap_id = 11;
  seed_key = lit "d";
  label = lit "Laptop";
  kind = lit "laptop";
  mac = lit "00";
  band = lit "2.4";
  rssi = negsuc 79;
  steer_eligible = true;
}

abbrev pub stuck_home : Db
stuck_home = record {
  tenants = acme ∷ [];
  parties = ada ∷ [];
  identities = ada_email ∷ [];
  verifications =
      record {
        verification_id = 4;
        party_id = 2;
        factor_type = lit "pin";
        value_hash = lit "pin:12";
      }
      ∷ [];
  contact_points = [];
  gateways = gateway ∷ [];
  access_points = flapping_extender ∷ [];
  radios = radio_on 12 (lit "2.4") ∷ radio_on 13 (lit "5") ∷ [];
  devices = stuck_laptop ∷ [];
  events = [];
  orders = [];
  scenario_events = [];
}

-- The same home after the laptop moved.
abbrev pub flapping_home : Db
flapping_home = record stuck_home {
  devices = record stuck_laptop { band = lit "5"; rssi = negsuc 57 } ∷ [];
}

abbrev pub opened : Db → Session
opened db = record { committed = db; current = db }

abbrev pub first_stamp : Stamp
first_stamp = record { id = 7; now = 100 }

abbrev pub second_stamp : Stamp
second_stamp = record { id = 8; now = 200 }
