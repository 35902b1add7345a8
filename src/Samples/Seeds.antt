-- ===== src/Samples/Seeds.antt =====
-- The theorems on seeding, applied.
use genesys_cx_demo_harness.Seed.Upsert.{put, upsert, pruned, cascade_keys}
use genesys_cx_demo_harness.Base.{
  insert, put_id, get_id, lookup, ◌≡◌, refl, true, lit, length, ◌-◌, ◌++◌, List, [], ◌∷◌, none,
  some, text_eq, if◌then◌else◌, show_int, pos, negsuc, Memᴰ,
}
use genesys_cx_demo_harness.Store.{Gateway, Radio, ConnectedDevice, Db, ok}
use genesys_cx_demo_harness.Seed.Pack.{NetworkCfg, Pack}
use genesys_cx_demo_harness.Seed.Tools.{SeedTools, key}
use genesys_cx_demo_harness.Seed.Rows.{
  mac_for, ap_row, gateway_row, device_row, ap_ids_from, radio_row, each, home_rows, index_from,
  profile_rows, assigned_rows, SeedParty, NetworkCounts, NetworkRows, seed_rows,
}
use genesys_cx_demo_harness.Seed.Network.{write_networks, seed_networks}
use genesys_cx_demo_harness.Seed.Network.Again.{seed_networks_again}
use genesys_cx_demo_harness.Seed.Network.Closed.{HasAp}
use genesys_cx_demo_harness.Seed.Network.Tenants.{
  others, IsApartFrom, seed_networks-refers, seed_networks-others,
}
use genesys_cx_demo_harness.Seed.Upsert.Owned.{IsApart}
use genesys_cx_demo_harness.Samples.{toy, gateway, acme, stuck_home}

abbrev pub home_cfg : NetworkCfg
home_cfg = record {
  profiles =
      (
        lit "home",
        record {
          gateway = record {
            key = none;
            model = lit "Hub";
            wan_status = lit "online";
            uptime_s = pos 60;
          };
          access_points =
              record {
                key = lit "ext1";
                label = lit "Loft";
                kind = lit "extender";
                model = none;
                status = lit "online";
                backhaul_quality = pos 96;
              }
              ∷ [];
          radios =
              record { ap = lit "ext1"; band = lit "5"; channel = pos 36; utilization = pos 12 }
              ∷ [];
          devices =
              record {
                key = lit "ipad";
                ap = lit "ext1";
                label = lit "iPad";
                kind = none;
                band = lit "5";
                rssi = negsuc 54;
                steer_eligible = true;
              }
              ∷ [];
        },
      )
      ∷ [];
  assign = (lit "home", 0 ∷ 7 ∷ []) ∷ [];
}

abbrev pub acme_pack : Pack
acme_pack = record {
  tenant = record {
    slug = lit "acme";
    display_name = lit "Acme";
    industry = lit "telco";
    config_json = acme.config_json;
  };
  seed = record {
    party_count = 1;
    party_type = none;
    tiers = lit "gold" ∷ [];
    identities = lit "email" ∷ [];
    contact_channels = lit "sms" ∷ [];
    factor_type = lit "pin";
    factor_pattern = lit "1";
    phone_pattern = lit "+4477009000";
    account_pattern = lit "A";
    email_domain = lit "x.org";
    faker_locale = none;
    faker_seed = 1;
    network = some home_cfg;
  };
}

-- The key of a text is its length, so that "acme:party:0" is Ada's and "tenant:acme" is Acme's.
instance abbrev pub toy_tools : SeedTools
toy_tools = record {
  uuid5 = λ t. length t - 10;
  dns_uuid5_bytes = λ t. length t ∷ 17 ∷ 34 ∷ 51 ∷ 68 ∷ [];
  format_first_name = λ label name. some (name ++ lit "'s " ++ label);
  format_index = λ pattern i. some (pattern ++ show_int (pos i));
  fake_name = λ locale seed i. lit "Ada Lovelace";
  pack_file = λ slug. if text_eq slug (lit "acme") then some acme_pack else none;
}

abbrev pub ada_seeded : List SeedParty
ada_seeded = record { index = 0; party_id = 2; display_name = lit "Ada Lovelace" } ∷ []

abbrev pub home_listed : NetworkRows
home_listed = record {
  gateways =
      record {
        gateway_id = 10;
        tenant_id = 1;
        party_id = 2;
        seed_key = lit "gateway";
        model = lit "Hub";
        wan_status = lit "online";
        uptime_s = pos 60;
      }
      ∷ [];
  access_points =
      record {
        ap_id = 10;
        tenant_id = 1;
        party_id = 2;
        seed_key = lit "ext1";
        label = lit "Loft";
        kind = lit "extender";
        model = [];
        status = lit "online";
        backhaul_quality = pos 96;
      }
      ∷ [];
  radios =
      record {
        radio_id = 15;
        tenant_id = 1;
        party_id = 2;
        ap_id = 10;
        seed_key = lit "ext1-5";
        band = lit "5";
        channel = pos 36;
        utilization = pos 12;
      }
      ∷ [];
  devices =
      record {
        device_id = 14;
        tenant_id = 1;
        party_id = 2;
        connected_ap_id = 10;
        seed_key = lit "ipad";
        label = lit "Ada's iPad";
        kind = [];
        mac = lit "02:0b:11:22:33:44";
        band = lit "5";
        rssi = negsuc 54;
        steer_eligible = true;
      }
      ∷ [];
}

abbrev pub seeded_home : Db
seeded_home = record stuck_home {
  gateways = home_listed.gateways;
  access_points = home_listed.access_points;
  radios = home_listed.radios;
  devices = home_listed.devices;
}

abbrev pub home_counts : NetworkCounts
home_counts = record { gateways = 1; access_points = 1; radios = 1; devices = 1 }

pub listed_home : seed_rows 1 (lit "acme") ada_seeded home_cfg ≡ ok home_listed
unfolding seed_rows assigned_rows lookup text_eq profile_rows get_id index_from put_id home_rows
    each radio_row ap_ids_from insert device_row gateway_row ap_row key mac_for show_int
listed_home = refl

pub seeded_once :
    seed_networks stuck_home 1 (lit "acme") ada_seeded home_cfg ≡ ok (home_counts, seeded_home)
unfolding seed_networks write_networks upsert put cascade_keys pruned
seeded_once = rw listed_home refl

seed_networks_again_example :
    seed_networks seeded_home 1 (lit "acme") ada_seeded home_cfg ≡ ok (home_counts, seeded_home)
seed_networks_again_example =
    seed_networks_again stuck_home seeded_home 1 (lit "acme") ada_seeded home_cfg seeded_once

seed_networks-refers_example :
    ((r : Radio)
      → Memᴰ r seeded_home.radios
      → r.tenant_id ≡ 1
      → HasAp seeded_home.access_points r.ap_id)
    × ((d : ConnectedDevice)
        → Memᴰ d seeded_home.devices
        → d.tenant_id ≡ 1
        → HasAp seeded_home.access_points d.connected_ap_id)
seed_networks-refers_example =
    seed_networks-refers stuck_home seeded_home 1 (lit "acme") ada_seeded home_cfg seeded_once

-- Two homes, one of another tenant.
abbrev elsewhere : Gateway
elsewhere = record gateway { gateway_id = 77; tenant_id = 9; party_id = 8 }

abbrev shared_home : Db
shared_home = record stuck_home { gateways = gateway ∷ elsewhere ∷ [] }

abbrev shared_seeded : Db
shared_seeded = record seeded_home { gateways = home_listed.gateways ++ (elsewhere ∷ []) }

shared_once :
    seed_networks shared_home 1 (lit "acme") ada_seeded home_cfg ≡ ok (home_counts, shared_seeded)
unfolding seed_networks write_networks upsert put cascade_keys pruned
shared_once = rw listed_home refl

shared-IsApartFrom : IsApartFrom 1 home_listed shared_home
unfolding IsApart
shared-IsApartFrom = record {
  gateways_apart = (λ h. cc, (λ h. refl, tt));
  access_points_apart = (λ h. cc, tt);
  radios_apart = (λ h. cc, (λ h. cc, tt));
  devices_apart = (λ h. cc, tt);
  radios_kept = (λ h. cc, (λ h. cc, tt));
  devices_kept = (λ h. cc, tt);
}

seed_networks-others_example : others 1 shared_seeded ≡ others 1 shared_home
seed_networks-others_example =
    seed_networks-others shared_home shared_seeded 1 (lit "acme") ada_seeded home_cfg listed_home
      shared-IsApartFrom shared_once
