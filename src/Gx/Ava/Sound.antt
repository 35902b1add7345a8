-- ===== src/Gx/Ava/Sound.antt =====
-- What a schema that passes satisfies at each place that the check reaches.
use genesys_cx_demo_harness.Base.{◌≡◌, Bool, true, false, Text, lit, All, some, inl, inr, ◌⊎◌}
use genesys_cx_demo_harness.Platform.{Platform}
use genesys_cx_demo_harness.Gx.Ava.{
  Node, object, Fields, get, forbidden_keywords, has_key, is_type, passes, check_property_name,
  validate_ava_schema,
}
use genesys_cx_demo_harness.Gx.Ava.Walked.{
  IsPlace, IsProperty, check_property_name-passes, check_property-passes, walk-parts,
  properties-passes, walk-place,
}

module _ ⦃platform : Platform⦄ where
  -- A schema that is accepted uses no forbidden keyword at any place that the check reaches, and an
  -- array only at its root.
  pub validate_ava_schema-place :
      (schema : Fields) (w : Text) (last : Bool) (hs : Fields)
      → validate_ava_schema schema w ≡ passes
      → IsPlace true schema last hs
      → All (λ k. has_key hs k ≡ false) forbidden_keywords
        × ((is_type (lit "array") hs ≡ false) ⊎ (last ≡ true))
  unfolding validate_ava_schema
  validate_ava_schema-place schema w last hs h place =
      let (w', passed) = walk-place true w place h in
      let (keywords, rest) = walk-parts last w' hs passed in
      (
        keywords,
        elim rest [
          | inl (yes_array, at_root, items) ↦ inr at_root
          | inr (no_array, checked) ↦ inl no_array
        ],
      )

  -- Each property of an accepted schema, at any place that the check reaches and that is no array, has
  -- a name that the pattern accepts and that has no dot, and a schema that is an object, is described
  -- and is no array.
  pub validate_ava_schema-IsProperty :
      (schema : Fields) (w : Text) (last : Bool) (hs ps : Fields) (name : Text) (spec : Node)
      → validate_ava_schema schema w ≡ passes
      → IsPlace true schema last hs
      → is_type (lit "array") hs ≡ false
      → get (lit "properties") hs ≡ some (object ps)
      → get name ps ≡ some spec
      → IsProperty name spec
  unfolding validate_ava_schema check_property_name
  validate_ava_schema-IsProperty schema w last hs ps name spec h place no_array found has_name =
      let (w', passed) = walk-place true w place h in
      let (named, checked) = properties-passes last w' hs ps name passed no_array found has_name in
      let (gs, is_schema, flat, told, inner) = check_property-passes name _ spec _ checked in
      let (no_dot, safe) = check_property_name-passes name w' named in
      record {
        fields = gs;
        is_schema = is_schema;
        safe_name = safe;
        no_dot = no_dot;
        described = told;
        no_array = flat;
      }
