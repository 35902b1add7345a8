-- ===== src/Seed/Rows.antt =====
-- The rows of the home networks that a pack describes (`seed_networks` of app/seed/network.py).
use genesys_cx_demo_harness.Base.{
  ℕ, Text, lit, show_int, pos, Dict, lookup, insert, IdDict, get_id, put_id, List, [], ◌∷◌, ◌++◌,
  map, take, Option, none, some, get_or, ltb, ◌+◌, ◌/◌, ◌%◌, if◌then◌else◌, is_empty,
}
use genesys_cx_demo_harness.Platform.{Platform}
use genesys_cx_demo_harness.Store.{
  Gateway, AccessPoint, Radio, ConnectedDevice, Result, ok, raised, ◌>>=◌, key_error, index_error,
  format_error,
}
use genesys_cx_demo_harness.Seed.Pack.{
  GatewayCfg, ApCfg, RadioCfg, DeviceCfg, HomeProfile, NetworkCfg,
}
use genesys_cx_demo_harness.Seed.Tools.{SeedTools, key}

pub record SeedParty : Type 0 where
  pub index : ℕ
  pub party_id : ℕ
  pub display_name : Text

pub record NetworkCounts : Type 0 where
  pub gateways : ℕ
  pub access_points : ℕ
  pub radios : ℕ
  pub devices : ℕ

-- The rows that a seeding writes, by table.
pub record NetworkRows : Type 0 where
  pub gateways : List Gateway
  pub access_points : List AccessPoint
  pub radios : List Radio
  pub devices : List ConnectedDevice

-- `d[k]`
abbrev pub item {ℓ} : {V : Type ℓ} → Option V → Result V
item none = raised key_error
item (some v) = ok v

-- `s.format(...)`
abbrev pub formatted : Option Text → Result Text
formatted none = raised format_error
formatted (some t) = ok t

-- `f"{b:02x}"` of a byte
abbrev hex_digit : ℕ → ℕ
hex_digit n = if ltb n 10 then n + b'0' else n + 87

unfoldable hex_byte : ℕ → Text
hex_byte n = hex_digit (n / 16) ∷ hex_digit (n % 16) ∷ []

unfoldable mac_tail : List ℕ → Text
unfolding hex_byte
mac_tail [] = []
mac_tail (n ∷ ns) = b':' ∷ hex_byte n ++ mac_tail ns

module _ ⦃platform : Platform⦄ where
  -- `s.split()[0]`, which raises on a text of spaces.
  unfoldable first_word : Text → Option Text
  first_word [] = none
  first_word (c ∷ s) =
      let rest = first_word s in if platform.is_space c then rest else some (word (c ∷ s))
    where
      word : Text → Text
      word [] = []
      word (d ∷ t) = let more = word t in if platform.is_space d then [] else d ∷ more

  unfoldable pub first_name : SeedParty → Result Text
  unfolding first_word
  first_name p =
      if is_empty p.display_name
      then ok []
      else elim (first_word p.display_name) [ none ↦ raised index_error | some w ↦ ok w ]

-- A call for each element, up to the first that raises.
unfoldable pub each {ℓ κ} : {A : Type ℓ} {B : Type κ} → (A → Result B) → List A → Result (List B)
each f [] = ok []
each f (x ∷ xs) = do y ← f x; ys ← each f xs; ok (y ∷ ys)

abbrev pub no_rows : NetworkRows
no_rows = record { gateways = []; access_points = []; radios = []; devices = [] }

abbrev pub add_rows : NetworkRows → NetworkRows → NetworkRows
add_rows a b = record {
  gateways = a.gateways ++ b.gateways;
  access_points = a.access_points ++ b.access_points;
  radios = a.radios ++ b.radios;
  devices = a.devices ++ b.devices;
}

module _ ⦃platform : Platform⦄ ⦃tools : SeedTools⦄ where
  -- `_key(slug, "party", str(index), *parts)`
  abbrev party_key : Text → ℕ → List Text → ℕ
  party_key slug index parts = key (slug ∷ lit "party" ∷ show_int (pos index) ∷ parts)

  unfoldable pub mac_for : Text → ℕ → Text → Text
  unfolding mac_tail
  mac_for slug index device_key =
      let name = slug ++ b':' ∷ show_int (pos index) ++ b':' ∷ device_key in
      lit "02" ++ mac_tail (take 5 (tools.dns_uuid5_bytes name))

  module _ (tenant_id : ℕ) (slug : Text) (party : SeedParty) where
    unfoldable pub gateway_row : GatewayCfg → Gateway
    gateway_row cfg = record {
      gateway_id = party_key slug party.index (lit "gateway" ∷ []);
      tenant_id = tenant_id;
      party_id = party.party_id;
      seed_key = get_or cfg.key (lit "gateway");
      model = cfg.model;
      wan_status = cfg.wan_status;
      uptime_s = cfg.uptime_s;
    }

    abbrev pub ap_id_of : ApCfg → ℕ
    ap_id_of cfg = party_key slug party.index (lit "ap" ∷ cfg.key ∷ [])

    unfoldable pub ap_row : ApCfg → AccessPoint
    ap_row cfg = record {
      ap_id = ap_id_of cfg;
      tenant_id = tenant_id;
      party_id = party.party_id;
      seed_key = cfg.key;
      label = cfg.label;
      kind = cfg.kind;
      model = get_or cfg.model [];
      status = cfg.status;
      backhaul_quality = cfg.backhaul_quality;
    }

    -- `ap_ids`, after the loop over the access points.
    unfoldable pub ap_ids_from : Dict ℕ → List ApCfg → Dict ℕ
    ap_ids_from ids [] = ids
    ap_ids_from ids (cfg ∷ cfgs) = ap_ids_from (insert cfg.key (ap_id_of cfg) ids) cfgs

    unfoldable pub radio_row : Dict ℕ → RadioCfg → Result Radio
    radio_row ap_ids cfg = do
      ap_id ← item (lookup cfg.ap ap_ids)
      ok (record {
        radio_id = party_key slug party.index (lit "radio" ∷ cfg.ap ∷ cfg.band ∷ []);
        tenant_id = tenant_id;
        party_id = party.party_id;
        ap_id = ap_id;
        seed_key = cfg.ap ++ b'-' ∷ cfg.band;
        band = cfg.band;
        channel = cfg.channel;
        utilization = cfg.utilization;
      })

    unfoldable pub device_row : Dict ℕ → DeviceCfg → Result ConnectedDevice
    unfolding first_name
    device_row ap_ids cfg = do
      ap_id ← item (lookup cfg.ap ap_ids)
      name ← first_name party
      label ← formatted (tools.format_first_name cfg.label name)
      ok (record {
        device_id = party_key slug party.index (lit "device" ∷ cfg.key ∷ []);
        tenant_id = tenant_id;
        party_id = party.party_id;
        connected_ap_id = ap_id;
        seed_key = cfg.key;
        label = label;
        kind = get_or cfg.kind [];
        mac = mac_for slug party.index cfg.key;
        band = cfg.band;
        rssi = cfg.rssi;
        steer_eligible = cfg.steer_eligible;
      })

    -- What the loop writes for one party.
    unfoldable pub home_rows : HomeProfile → Result NetworkRows
    home_rows profile = do
      let ap_ids = ap_ids_from [] profile.access_points
      radios ← each (radio_row ap_ids) profile.radios
      devices ← each (device_row ap_ids) profile.devices
      ok (record {
        gateways = gateway_row profile.gateway ∷ [];
        access_points = map ap_row profile.access_points;
        radios = radios;
        devices = devices;
      })

  -- `{p.index: p for p in parties}`
  unfoldable pub index_from : IdDict SeedParty → List SeedParty → IdDict SeedParty
  index_from d [] = d
  index_from d (p ∷ ps) = index_from (put_id p.index p d) ps

  module _ (tenant_id : ℕ) (slug : Text) (by_index : IdDict SeedParty) where
    -- The parties that one profile is assigned to; an index without a party is skipped.
    unfoldable pub profile_rows : HomeProfile → List ℕ → Result NetworkRows
    profile_rows profile [] = ok no_rows
    profile_rows profile (index ∷ indexes) = do
      here ← elim (get_id index by_index) [
        | none ↦ ok no_rows
        | some party ↦ home_rows tenant_id slug party profile
      ]
      rest ← profile_rows profile indexes
      ok (add_rows here rest)

    unfoldable pub assigned_rows : Dict HomeProfile → Dict (List ℕ) → Result NetworkRows
    assigned_rows profiles [] = ok no_rows
    assigned_rows profiles ((name, indexes) ∷ assign) = do
      profile ← item (lookup name profiles)
      here ← profile_rows profile indexes
      rest ← assigned_rows profiles assign
      ok (add_rows here rest)

  unfoldable pub seed_rows : ℕ → Text → List SeedParty → NetworkCfg → Result NetworkRows
  seed_rows tenant_id slug parties cfg =
      assigned_rows tenant_id slug (index_from [] parties) cfg.profiles cfg.assign
