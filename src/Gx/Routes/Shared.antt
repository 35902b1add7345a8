-- ===== src/Gx/Routes/Shared.antt =====
-- What the gx routes share (app/gx/routes.py): resolving the caller, parameters, and replies. A
-- reply that raises leaves the session as it was at that point; what was not committed is dropped
-- when the session closes.
use genesys_cx_demo_harness.Base.{
  ℕ, Text, lit, Dict, [], Option, none, some, is_empty, if◌then◌else◌,
}
use genesys_cx_demo_harness.Platform.{Platform, Param, object, other}
use genesys_cx_demo_harness.Store.{Tenant, Db, Session, Result, ok, raised}
use genesys_cx_demo_harness.Profile.{ProfileRollup, resolve_profile}
use genesys_cx_demo_harness.Gx.Normalize.{
  IdType, phone, email, account_no, unrecognized, NormalizedIdentifier, normalize_identifier, strip,
}

pub record Response (A : Type 0) : Type 0 where
  pub status_code : ℕ
  pub body : A

abbrev pub Reply : Type 0 → Type 0
Reply A = Result (Response A) × Session

abbrev pub respond : {A : Type 0} → ℕ → A → Session → Reply A
respond code body s = (ok (record { status_code = code; body = body }), s)

-- The `id_type` of a normalized identifier as text.
abbrev pub id_type_text : IdType → Text
id_type_text phone = lit "phone"
id_type_text email = lit "email"
id_type_text account_no = lit "account_no"
id_type_text unrecognized = lit "unrecognized"

-- `str(country) if country else None`
abbrev pub country_of : Tenant → Option Text
country_of tenant = elim tenant.config_json.country [
  | none ↦ none
  | some c ↦ if is_empty c then none else some c
]

module _ ⦃platform : Platform⦄ where
  unfoldable pub resolve_normalized :
      Db → Tenant → NormalizedIdentifier → Result (Option ProfileRollup)
  resolve_normalized db tenant n =
      if n.recognized then resolve_profile db tenant n.value else ok none

  -- `_resolve`
  unfoldable pub resolve : Db → Tenant → Text → Result (Option ProfileRollup)
  unfolding resolve_normalized
  resolve db tenant identifier =
      resolve_normalized db tenant (normalize_identifier (some identifier) (country_of tenant))

  -- `_parse_params`
  unfoldable pub parse_params : Text → Option (Dict Param)
  parse_params raw = if is_empty (strip raw) then some [] else elim (platform.json_loads raw) [
    | none ↦ none
    | some j ↦ elim j [ object d ↦ some d | other ↦ none ]
  ]

  -- The start of a route that answers `missing` for an unknown caller.
  abbrev pub with_caller :
      {A : Type 0} → Session → Tenant → Text → Reply A → (ProfileRollup → Reply A) → Reply A
  with_caller s tenant identifier missing found = elim (resolve s.current tenant identifier) [
    | raised e ↦ (raised e, s)
    | ok r ↦ elim r [ none ↦ missing | some rollup ↦ found rollup ]
  ]
