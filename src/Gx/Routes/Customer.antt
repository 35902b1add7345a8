-- ===== src/Gx/Routes/Customer.antt =====
-- /gx/customer-context and /gx/verify-customer (app/gx/routes.py).
use genesys_cx_demo_harness.Base.{true, false, Text, [], none, some, get_or, if◌then◌else◌}
use genesys_cx_demo_harness.Platform.{Platform}
use genesys_cx_demo_harness.Store.{Tenant, Db, Session, ok, raised}
use genesys_cx_demo_harness.Events.{resolve_last_channel}
use genesys_cx_demo_harness.Profile.{ProfileRollup, check_factor, tenant_slug}
use genesys_cx_demo_harness.Gx.Normalize.{normalize_identifier}
use genesys_cx_demo_harness.Gx.Masking.{mask_name}
use genesys_cx_demo_harness.Gx.Schemas.{
  CustomerContextOut, context_not_found, VerifyCustomerIn, VerifyCustomerOut, not_verified,
}
use genesys_cx_demo_harness.Gx.Routes.Shared.{
  Reply, respond, country_of, id_type_text, resolve_normalized, with_caller,
}

module _ ⦃platform : Platform⦄ where
  unfoldable pub context_of : Db → Tenant → ProfileRollup → CustomerContextOut
  context_of db tenant rollup = record {
    found = true;
    party_id = platform.show_uuid rollup.party.party_id;
    display_name = rollup.party.display_name;
    tenant_slug = tenant_slug db rollup.party;
    tier = get_or rollup.party.tier [];
    verified = false;
    last_channel = resolve_last_channel db tenant rollup.party.party_id rollup.last_channel;
    id_type_resolved = rollup.matched_identity.id_type;
  }

  unfoldable pub customer_context : Session → Tenant → Text → Reply CustomerContextOut
  customer_context s tenant identifier =
      let n = normalize_identifier (some identifier) (country_of tenant) in
      let missing = context_not_found tenant.slug (id_type_text n.id_type) in
      elim (resolve_normalized s.current tenant n) [
        | raised e ↦ (raised e, s)
        | ok r ↦ elim r [
          | none ↦ respond 200 missing s
          | some rollup ↦ respond 200 (context_of s.current tenant rollup) s
        ]
      ]

  abbrev pub verified_out : Tenant → ProfileRollup → VerifyCustomerOut
  verified_out tenant rollup = record {
    verified = true;
    party_id = platform.show_uuid rollup.party.party_id;
    masked_name = mask_name rollup.party.display_name tenant.config_json.masked_name;
  }

  unfoldable pub verify_customer : Session → Tenant → VerifyCustomerIn → Reply VerifyCustomerOut
  verify_customer s tenant payload =
      with_caller s tenant payload.identifier (respond 200 not_verified s) λ rollup.
        if check_factor s.current rollup.party payload.factor_type payload.factor_value
        then respond 200 (verified_out tenant rollup) s
        else respond 200 not_verified s
