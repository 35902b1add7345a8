-- ===== src/Scenarios/Fields.antt =====
-- The fields that a scenario may set.
use genesys_cx_demo_harness.Base.{
  ◌≡◌, true, false, Text, one_of, Dict, lookup, List, [], ◌∷◌, All, is_empty, Bool-cases,
  Option-cases, inl, inr, &&_true, subst, lit, Bool, not, ◌&&◌, all, text_eq, text_eq→eq, refl,
  arith, All-step,
}
use genesys_cx_demo_harness.Store.{ok, ok_injective}
use genesys_cx_demo_harness.Scenarios.Columns.{
  Entity, gateway, access_point, radio, connected_device, entities, model_columns, settable,
}
use genesys_cx_demo_harness.Scenarios.Packs.{Literal, RawStep, ScenarioStep, known_keys, parse_step}

-- Every field that a step sets is one of those that may be set.
abbrev pub IsSettable : ScenarioStep → Type 0
IsSettable step =
    All (λ (e : Text × Literal). one_of e.0 (settable step.entity) ≡ true) step.set_fields

-- The columns that say whose a row is, which row it is, what it refers to and when it was written.
abbrev pub fixed_columns : List Text
fixed_columns =
    lit "tenant_id"
    ∷ lit "party_id"
    ∷ lit "seed_key"
    ∷ lit "updated_at"
    ∷ lit "gateway_id"
    ∷ lit "ap_id"
    ∷ lit "radio_id"
    ∷ lit "device_id"
    ∷ lit "connected_ap_id"
    ∷ []

abbrev pub is_free : Entity → Text → Bool
is_free entity name = one_of name (model_columns entity) && not (one_of name fixed_columns)

-- The step sets columns of its entity, none of them a fixed one, and at least one; it matches on
-- columns of its entity.
abbrev pub SetsFree : ScenarioStep → Type 0
SetsFree step =
    All (λ (e : Text × Literal). is_free step.entity e.0 ≡ true) step.set_fields
    × (is_empty step.set_fields ≡ false)
    × All (λ (e : Text × Literal). one_of e.0 (model_columns step.entity) ≡ true) step.match_fields

one_of-all :
    (p : Text → Bool) (t : Text) (names : List Text)
    → one_of t names ≡ true
    → all p names ≡ true
    → p t ≡ true
unfolding one_of
one_of-all p t [] h k = cc
one_of-all p t (u ∷ names) h k = elim (Bool-cases (text_eq t u)) [
  | inl same ↦ rw (text_eq→eq t u same) (&&_true _ _ k).0
  | inr other ↦ one_of-all p t names (ground (arith, other, h)) (&&_true _ _ k).1
]

settable_free : (entity : Entity) → all (is_free entity) (settable entity) ≡ true
unfolding settable model_columns one_of text_eq
settable_free gateway = refl
settable_free access_point = refl
settable_free radio = refl
settable_free connected_device = refl

settable-is_free :
    (entity : Entity) (name : Text)
    → one_of name (settable entity) ≡ true
    → is_free entity name ≡ true
settable-is_free entity name h =
    one_of-all (is_free entity) name (settable entity) h (settable_free entity)

known_keys-All :
    (d : Dict Literal) (names : List Text)
    → known_keys d names ≡ true
    → All (λ (e : Text × Literal). one_of e.0 names ≡ true) d
unfolding known_keys
known_keys-All [] names h = tt
known_keys-All (e ∷ d) names h =
    let (here, rest) = &&_true _ _ h in (here, known_keys-All d names rest)

-- What a step that is accepted went through.
pub parse_step-IsSettable :
    (name : Text) (raw : RawStep) {step : ScenarioStep}
    → parse_step name raw ≡ ok step
    → IsSettable step
      × (is_empty step.set_fields ≡ false)
      × All
          (λ (e : Text × Literal). one_of e.0 (model_columns step.entity) ≡ true)
          step.match_fields
unfolding parse_step
parse_step-IsSettable name raw {step} h = elim (Option-cases (lookup raw.entity entities)) [
  | inl missing ↦ absurd (let bad = rw (missing, parse_step) at h in cc)
  | inr (e, found) ↦ elim (Bool-cases (is_empty raw.set_fields)) [
    | inl empty ↦ absurd (let bad = rw (found, empty, parse_step) at h in cc)
    | inr something ↦ elim (Bool-cases (known_keys raw.match_fields (model_columns e))) [
      | inr unknown ↦ absurd (let bad = rw (found, something, unknown, parse_step) at h in cc)
      | inl matched ↦ elim (Bool-cases (known_keys raw.set_fields (settable e))) [
        | inr illegal ↦
            absurd (let bad = rw (found, something, matched, illegal, parse_step) at h in cc)
        | inl legal ↦
            subst
              (λ (x : ScenarioStep).
                IsSettable x
                × (is_empty x.set_fields ≡ false)
                × All (λ (f : Text × Literal). one_of f.0 (model_columns x.entity) ≡ true)
                    x.match_fields)
              (ok_injective (rw (found, something, matched, legal, parse_step) at h))
              (
                known_keys-All raw.set_fields (settable e) legal,
                something,
                known_keys-All raw.match_fields (model_columns e) matched,
              )
      ]
    ]
  ]
]

-- A step that is accepted sets at least one field, sets only columns of its entity, none of them a
-- key, a reference, an owner, a seed key or a time of writing, and matches on columns of its entity.
pub parse_step-SetsFree :
    (name : Text) (raw : RawStep) {step : ScenarioStep}
    → parse_step name raw ≡ ok step
    → SetsFree step
parse_step-SetsFree name raw {step} h =
    let (settable_only, something, matched) = parse_step-IsSettable name raw h in
    (
      All-step (λ f. settable-is_free step.entity f.0) step.set_fields settable_only,
      something,
      matched,
    )
