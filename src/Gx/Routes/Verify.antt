-- ===== src/Gx/Routes/Verify.antt =====
-- What /gx/verify-customer gives away.
use genesys_cx_demo_harness.Base.{◌≡◌, some, ◌⊎◌, ◌∷◌, ◌++◌, Memᴰ, Text}
use genesys_cx_demo_harness.Platform.{Platform}
use genesys_cx_demo_harness.Store.{Tenant, Party, Verification, Db, Session, Error, ok, raised}
use genesys_cx_demo_harness.Profile.{ProfileRollup}
use genesys_cx_demo_harness.Gx.Normalize.{strip}
use genesys_cx_demo_harness.Gx.Schemas.{VerifyCustomerIn, VerifyCustomerOut, not_verified}
use genesys_cx_demo_harness.Gx.Routes.Shared.{Reply, respond, resolve}
use genesys_cx_demo_harness.Gx.Routes.Customer.{verified_out}

module _ ⦃platform : Platform⦄ where
  -- A stored factor of the party, of that type, has the digest of that value: SHA-256 of the type and
  -- the value in lower case without the spaces around it.
  abbrev pub IsFactor : Db → Party → Text → Text → Type 0
  IsFactor db party factor_type factor_value =
      (v : Verification) × Memᴰ v db.verifications
      × (v.party_id ≡ party.party_id)
      × (v.factor_type ≡ factor_type)
      × (v.value_hash
          ≡ platform.sha256_hex (factor_type ++ b':' ∷ platform.lower (strip factor_value)))

module _ ⦃platform : Platform⦄ (s : Session) (tenant : Tenant) (payload : VerifyCustomerIn) where
  -- Either the caller is known and a stored factor matches, and the answer says so, or the answer
  -- is the one empty answer; in no case is anything written.
  abbrev IsGuarded : Reply VerifyCustomerOut → Type 0
  IsGuarded reply =
      (reply.1 ≡ s)
      × (((e : Error) × (reply.0 ≡ raised e))
          ⊎ (reply ≡ respond 200 not_verified s)
          ⊎ ((rollup : ProfileRollup) × (resolve s.current tenant payload.identifier
                ≡ ok (some rollup))
              × IsFactor s.current rollup.party payload.factor_type payload.factor_value
              × (reply ≡ respond 200 (verified_out tenant rollup) s)))
