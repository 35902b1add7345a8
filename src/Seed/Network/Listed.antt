-- ===== src/Seed/Network/Listed.antt =====
-- The rows that the loop of `seed_networks` lists are the tenant's, and refer to each other.
use genesys_cx_demo_harness.Base.{
  ℕ, ◌≡◌, refl, ◌∙◌, Text, Dict, lookup, insert, List, [], ◌∷◌, map, arith, Bool-cases, inl, inr,
  Option, none, some, IdDict, get_id, ◌⊎◌, Option-cases, sym, subst, lookup-insert, text_eq,
}
use genesys_cx_demo_harness.Platform.{Platform}
use genesys_cx_demo_harness.Store.{Radio, ConnectedDevice, ok, >>=-eq-ok, ok_injective}
use genesys_cx_demo_harness.Seed.Pack.{ApCfg, RadioCfg, DeviceCfg, HomeProfile, NetworkCfg}
use genesys_cx_demo_harness.Seed.Tools.{SeedTools}
use genesys_cx_demo_harness.Seed.Rows.{
  formatted, SeedParty, NetworkRows, seed_rows, assigned_rows, profile_rows, home_rows, no_rows,
  each, item, ap_ids_from, ap_id_of, ap_row, gateway_row, radio_row, device_row, index_from,
  first_name,
}
use genesys_cx_demo_harness.Seed.Upsert.{has_id}
use genesys_cx_demo_harness.Seed.Network.Closed.{
  HasAp, IsClosed, All-map_each, each-All, no_rows-IsClosed, add_rows-IsClosed,
}

module _ ⦃platform : Platform⦄ ⦃tools : SeedTools⦄ where
  module _ (tenant : ℕ) (slug : Text) (party : SeedParty) where
    -- A key that `ap_ids` gives is that of an access point of the profile, or was there before.
    ap_ids_from-lookup :
        (cfgs : List ApCfg) (ids : Dict ℕ) (k : Text) {id : ℕ}
        → lookup k (ap_ids_from tenant slug party ids cfgs) ≡ some id
        → (HasAp (map (ap_row tenant slug party) cfgs) id) ⊎ (lookup k ids ≡ some id)
    unfolding ap_ids_from has_id HasAp ap_row
    ap_ids_from-lookup [] ids k {id} h = inr h
    ap_ids_from-lookup (cfg ∷ cfgs) ids k {id} h =
        elim (ap_ids_from-lookup cfgs (insert cfg.key (ap_id_of tenant slug party cfg) ids) k h) [
          | inl later ↦ inl (ground (arith, later))
          | inr now ↦ elim (Bool-cases (text_eq k cfg.key)) [
            | inl e ↦
                let hit : ap_id_of tenant slug party cfg ≡ id =
                  (let found = sym (lookup-insert cfg.key k _ ids) ∙ now in
                    let it = rw e at found in cc) in
                inl (rw hit (ground arith))
            | inr e ↦ inr (let found = sym (lookup-insert cfg.key k _ ids) ∙ now in rw e at found)
          ]
        ]

    listed :
        (cfgs : List ApCfg) (k : Text) {id : ℕ}
        → item (lookup k (ap_ids_from tenant slug party [] cfgs)) ≡ ok id
        → HasAp (map (ap_row tenant slug party) cfgs) id
    unfolding lookup
    listed cfgs k {id} h = elim (Option-cases (lookup k (ap_ids_from tenant slug party [] cfgs))) [
      | inl missing ↦ absurd (let bad = rw missing at h in cc)
      | inr (j, found) ↦ elim (ap_ids_from-lookup cfgs [] k found) [
        | inl there ↦ let same : j ≡ id = (let it = rw found at h in cc) in rw (← same) there
        | inr bad ↦ cc
      ]
    ]

    home_rows-IsClosed :
        (profile : HomeProfile) {rows : NetworkRows}
        → home_rows tenant slug party profile ≡ ok rows
        → IsClosed tenant rows
    unfolding home_rows radio_row device_row gateway_row ap_row first_name
    home_rows-IsClosed profile {rows} h =
        let ids = ap_ids_from tenant slug party [] profile.access_points in
        let (radios, r, rest) =
          >>=-eq-ok (each (radio_row tenant slug party ids) profile.radios) _ h in
        let (devices, d, done) =
          >>=-eq-ok (each (device_row tenant slug party ids) profile.devices) _ rest in
        subst (λ (x : NetworkRows). IsClosed tenant x) (ok_injective done)
          (record {
            own_gateways = (refl, tt);
            own_access_points =
                All-map_each _ (ap_row tenant slug party) profile.access_points (λ c. refl);
            own_radios = each-All _ _ profile.radios (λ c y e. radio c y e) r;
            own_devices = each-All _ _ profile.devices (λ c y e. device c y e) d;
          })
      where
        radio :
            (c : RadioCfg) (y : Radio)
            → radio_row tenant slug party (ap_ids_from tenant slug party [] profile.access_points) c
              ≡ ok y
            → (y.tenant_id ≡ tenant)
              × HasAp (map (ap_row tenant slug party) profile.access_points) y.ap_id
        radio c y e =
            let ids = ap_ids_from tenant slug party [] profile.access_points in
            let (id, found, made) = >>=-eq-ok (item (lookup c.ap ids)) _ e in
            subst
              (λ (y : Radio).
                (y.tenant_id ≡ tenant)
                × HasAp (map (ap_row tenant slug party) profile.access_points) y.ap_id)
              (ok_injective made) (refl, listed profile.access_points c.ap found)

        device :
            (c : DeviceCfg) (y : ConnectedDevice)
            → device_row tenant slug party
                (ap_ids_from tenant slug party [] profile.access_points)
                c
              ≡ ok y
            → (y.tenant_id ≡ tenant)
              × HasAp (map (ap_row tenant slug party) profile.access_points) y.connected_ap_id
        device c y e =
            let ids = ap_ids_from tenant slug party [] profile.access_points in
            let (id, found, next) = >>=-eq-ok (item (lookup c.ap ids)) _ e in
            let (name, named, more) = >>=-eq-ok (first_name party) _ next in
            let (label, labelled, made) =
              >>=-eq-ok (formatted (tools.format_first_name c.label name)) _ more in
            subst
              (λ (y : ConnectedDevice).
                (y.tenant_id ≡ tenant)
                × HasAp (map (ap_row tenant slug party) profile.access_points) y.connected_ap_id)
              (ok_injective made) (refl, listed profile.access_points c.ap found)

  profile_rows-IsClosed :
      (tenant : ℕ) (slug : Text) (by_index : IdDict SeedParty) (profile : HomeProfile)
      (indexes : List ℕ) {rows : NetworkRows}
      → profile_rows tenant slug by_index profile indexes ≡ ok rows
      → IsClosed tenant rows
  unfolding profile_rows
  profile_rows-IsClosed tenant slug by_index profile [] h =
      subst (λ (x : NetworkRows). IsClosed tenant x) (ok_injective h) (no_rows-IsClosed tenant)
  profile_rows-IsClosed tenant slug by_index profile (i ∷ indexes) h =
      let (here, e, next) = >>=-eq-ok _ _ h in
      let (rest, r, made) = >>=-eq-ok (profile_rows tenant slug by_index profile indexes) _ next in
      subst (λ (x : NetworkRows). IsClosed tenant x) (ok_injective made)
        (add_rows-IsClosed tenant here rest (one (get_id i by_index) e)
          (profile_rows-IsClosed tenant slug by_index profile indexes r))
    where
      one :
          (found : Option SeedParty) {here : NetworkRows}
          → (elim found [ none ↦ ok no_rows | some party ↦ home_rows tenant slug party profile ])
            ≡ ok here
          → IsClosed tenant here
      one none e =
          subst (λ (x : NetworkRows). IsClosed tenant x) (ok_injective e) (no_rows-IsClosed tenant)
      one (some party) e = home_rows-IsClosed tenant slug party profile e

  pub seed_rows-IsClosed :
      (tenant : ℕ) (slug : Text) (parties : List SeedParty) (cfg : NetworkCfg) {rows : NetworkRows}
      → seed_rows tenant slug parties cfg ≡ ok rows
      → IsClosed tenant rows
  unfolding seed_rows assigned_rows
  seed_rows-IsClosed tenant slug parties cfg h = go cfg.assign h
    where
      go :
          (assign : Dict (List ℕ)) {rows : NetworkRows}
          → assigned_rows tenant slug (index_from [] parties) cfg.profiles assign ≡ ok rows
          → IsClosed tenant rows
      go [] h =
          subst (λ (x : NetworkRows). IsClosed tenant x) (ok_injective h) (no_rows-IsClosed tenant)
      go ((name, indexes) ∷ assign) h =
          let (profile, p, next) = >>=-eq-ok (item (lookup name cfg.profiles)) _ h in
          let (here, e, more) =
            >>=-eq-ok (profile_rows tenant slug (index_from [] parties) profile indexes) _ next in
          let (rest, r, made) =
            >>=-eq-ok (assigned_rows tenant slug (index_from [] parties) cfg.profiles assign) _
              more in
          subst (λ (x : NetworkRows). IsClosed tenant x) (ok_injective made)
            (add_rows-IsClosed tenant here rest
              (profile_rows-IsClosed tenant slug _ profile indexes e) (go assign r))
