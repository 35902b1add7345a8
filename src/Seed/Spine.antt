-- ===== src/Seed/Spine.antt =====
-- The spine of a tenant from its pack (app/seed/generator.py): the rows that `seed_tenant` merges, in
-- their order. `seed_cfg["verification"]` is two entries of the pack's record. Faker's names are a
-- parameter, by locale, seed and position.
use genesys_cx_demo_harness.Base.{
  ℕ, zero, suc, true, false, Text, lit, text_eq, show_int, pos, Dict, lookup, List, [], ◌∷◌, ◌++◌,
  length, first, none, some, get_or, ◌==◌, ◌%◌, if◌then◌else◌,
}
use genesys_cx_demo_harness.Platform.{Platform}
use genesys_cx_demo_harness.Store.{
  Party, Identity, Verification, ContactPoint, Result, ok, raised, ◌>>=◌, zero_division,
}
use genesys_cx_demo_harness.Profile.{hash_factor}
use genesys_cx_demo_harness.Seed.Pack.{SeedCfg}
use genesys_cx_demo_harness.Seed.Tools.{SeedTools, key}
use genesys_cx_demo_harness.Seed.Rows.{SeedParty, item, each, formatted}

pub record SpineRows : Type 0 where
  pub parties : List Party
  pub identities : List Identity
  pub verifications : List Verification
  pub contact_points : List ContactPoint
  pub seeded : List SeedParty

abbrev no_spine : SpineRows
no_spine = record {
  parties = [];
  identities = [];
  verifications = [];
  contact_points = [];
  seeded = [];
}

abbrev add_spine : SpineRows → SpineRows → SpineRows
add_spine a b = record {
  parties = a.parties ++ b.parties;
  identities = a.identities ++ b.identities;
  verifications = a.verifications ++ b.verifications;
  contact_points = a.contact_points ++ b.contact_points;
  seeded = a.seeded ++ b.seeded;
}

-- `xs[i]` of an index that is in range, as `i % len(xs)` is.
unfoldable nth : List Text → ℕ → Result Text
nth [] i = raised zero_division
nth (x ∷ xs) zero = ok x
nth (x ∷ xs) (suc i) = nth xs i

-- `tiers[i % len(tiers)]`, which raises ZeroDivisionError on an empty list.
unfoldable pub tier_of : List Text → ℕ → Result Text
unfolding nth
tier_of [] i = raised zero_division
tier_of (x ∷ xs) i = nth (x ∷ xs) (i % length (x ∷ xs))

module _ ⦃platform : Platform⦄ ⦃tools : SeedTools⦄ where
  -- `name.lower().replace(" ", ".").replace("'", "")`
  unfoldable local_part : Text → Text
  local_part [] = []
  local_part (c ∷ s) =
      let rest = local_part s in
      if c == b' ' then b'.' ∷ rest else (if c == 39 then rest else c ∷ rest)

  unfoldable email_for : Text → ℕ → Text → Text
  unfolding local_part
  email_for name index domain =
      local_part (platform.lower name) ++ b'.' ∷ show_int (pos index) ++ b'@' ∷ domain

  abbrev index_key : Text → ℕ → List Text → ℕ
  index_key slug i parts = key (slug ∷ lit "party" ∷ show_int (pos i) ∷ parts)

  module _ (tenant_id : ℕ) (slug : Text) (cfg : SeedCfg) where
    -- `values`
    unfoldable values_for : Text → ℕ → Result (Dict Text)
    unfolding email_for
    values_for name i = do
      phone ← formatted (tools.format_index cfg.phone_pattern i)
      msisdn ← formatted (tools.format_index cfg.phone_pattern i)
      account_no ← formatted (tools.format_index cfg.account_pattern i)
      ok (
          (lit "phone", phone)
          ∷ (lit "msisdn", msisdn)
          ∷ (lit "email", email_for name i cfg.email_domain)
          ∷ (lit "account_no", account_no)
          ∷ [])

    unfoldable identity_row : ℕ → Dict Text → Text → Result Identity
    identity_row i values id_type = do
      value ← item (lookup id_type values)
      ok (record {
        identity_id = index_key slug i (lit "identity" ∷ id_type ∷ []);
        tenant_id = tenant_id;
        party_id = index_key slug i [];
        id_type = id_type;
        value = value;
        is_primary = elim (first cfg.identities) [ none ↦ false | some t ↦ text_eq id_type t ];
      })

    unfoldable contact_row : ℕ → Dict Text → Text → Result ContactPoint
    contact_row i values channel = do
      value ←
          item (lookup (if text_eq channel (lit "sms") then lit "phone" else lit "email") values)
      ok (record {
        contact_point_id = index_key slug i (lit "contact" ∷ channel ∷ []);
        party_id = index_key slug i [];
        channel = channel;
        value = value;
        consent = true;
      })

    -- One turn of the loop.
    unfoldable party_rows : ℕ → Result SpineRows
    unfolding values_for identity_row contact_row
    party_rows i = do
      let name = tools.fake_name (get_or cfg.faker_locale (lit "en_GB")) cfg.faker_seed i
      tier ← tier_of cfg.tiers i
      values ← values_for name i
      identities ← each (identity_row i values) cfg.identities
      factor ← formatted (tools.format_index cfg.factor_pattern i)
      contact_points ← each (contact_row i values) cfg.contact_channels
      ok (record {
        parties =
            record {
              party_id = index_key slug i [];
              tenant_id = tenant_id;
              party_type = get_or cfg.party_type (lit "person");
              display_name = name;
              tier = some tier;
            }
            ∷ [];
        identities = identities;
        verifications =
            record {
              verification_id = index_key slug i (lit "verification" ∷ cfg.factor_type ∷ []);
              party_id = index_key slug i [];
              factor_type = cfg.factor_type;
              value_hash = hash_factor cfg.factor_type factor;
            }
            ∷ [];
        contact_points = contact_points;
        seeded = record { index = i; party_id = index_key slug i []; display_name = name } ∷ [];
      })

    -- `for i in range(n)`
    unfoldable pub spine_rows : ℕ → Result SpineRows
    unfolding party_rows
    spine_rows zero = ok no_spine
    spine_rows (suc n) = do before ← spine_rows n; here ← party_rows n; ok (add_spine before here)
