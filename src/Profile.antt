-- ===== src/Profile.antt =====
-- Profile resolution over the customer spine (app/modules/profile/service.py), the digest of a
-- verification factor (app/core/hashing.py) and tenant resolution (app/core/tenancy.py).
pub mod Resolve
use genesys_cx_demo_harness.Base.{
  Bool, false, ◌&&◌, Text, text_eq, text_leb, List, [], ◌∷◌, ◌++◌, filter, find, any, is_empty,
  Option, none, some, ◌==◌, if◌then◌else◌, sort_by,
}
use genesys_cx_demo_harness.Platform.{Platform}
use genesys_cx_demo_harness.Store.{
  Tenant, Party, Identity, Verification, ContactPoint, Db, Result, ok, raised, dangling_party,
  unknown_tenant, ◌>>=◌, scalar_one_or_none,
}
use genesys_cx_demo_harness.Gx.Normalize.{strip}

pub record ProfileRollup : Type 0 where
  pub party : Party
  pub matched_identity : Identity
  pub last_channel : Text

abbrev by_channel : ContactPoint → ContactPoint → Bool
by_channel a b = text_leb a.channel b.channel

-- `_last_channel`
unfoldable pub best_channel : List ContactPoint → Text → Text
best_channel contact_points matched_value =
    let points = sort_by by_channel contact_points in
    elim (find (λ (c : ContactPoint). text_eq c.value matched_value) points) [
      | some point ↦ point.channel
      | none ↦ elim (find (λ (c : ContactPoint). c.consent) points) [
        | some point ↦ point.channel
        | none ↦ []
      ]
    ]

abbrev pub has_value : Tenant → Text → Identity → Bool
has_value tenant value i = i.tenant_id == tenant.tenant_id && text_eq i.value value

-- `identity.party` is the row with the foreign key's id, and `party.contact_points` those with the
-- party's.
unfoldable pub rollup_of : Db → Identity → Result (Option ProfileRollup)
rollup_of db identity = elim (find (λ (p : Party). p.party_id == identity.party_id) db.parties) [
  | none ↦ raised dangling_party
  | some party ↦ ok (
      some (record {
        party = party;
        matched_identity = identity;
        last_channel =
            best_channel
              (filter (λ (c : ContactPoint). c.party_id == party.party_id) db.contact_points)
              identity.value;
      }))
]

unfoldable pub resolve_profile : Db → Tenant → Text → Result (Option ProfileRollup)
resolve_profile db tenant value =
    if is_empty value
    then ok none
    else (scalar_one_or_none (filter (has_value tenant value) db.identities)
        >>= elim [ none ↦ ok none | some identity ↦ rollup_of db identity ])

-- `rollup.tenant_slug`: the slug of the party's tenant.
unfoldable pub tenant_slug : Db → Party → Text
tenant_slug db party = elim (find (λ (t : Tenant). t.tenant_id == party.tenant_id) db.tenants) [
  | none ↦ []
  | some t ↦ t.slug
]

-- `x_tenant or get_settings().default_tenant`
abbrev pub wanted_slug : Option Text → Text → Text
wanted_slug none default_tenant = default_tenant
wanted_slug (some s) default_tenant = if is_empty s then default_tenant else s

-- An unknown slug is a 404.
unfoldable pub resolve_tenant : Db → Option Text → Text → Result Tenant
resolve_tenant db x_tenant default_tenant =
    let slug = wanted_slug x_tenant default_tenant in
    scalar_one_or_none (filter (λ (t : Tenant). text_eq t.slug slug) db.tenants)
    >>= elim [ none ↦ raised (unknown_tenant slug) | some t ↦ ok t ]

module _ ⦃platform : Platform⦄ where
  unfoldable pub hash_factor : Text → Text → Text
  hash_factor factor_type value =
      platform.sha256_hex (factor_type ++ b':' ∷ platform.lower (strip value))

  -- `any` over no stored factor is false, as the early return is.
  unfoldable pub check_factor : Db → Party → Text → Text → Bool
  check_factor db party factor_type factor_value =
      let stored =
        filter
          (λ (v : Verification). v.party_id == party.party_id && text_eq v.factor_type factor_type)
          db.verifications in
      if is_empty stored
      then false
      else any (λ (v : Verification). text_eq v.value_hash (hash_factor factor_type factor_value))
          stored
