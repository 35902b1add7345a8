-- ===== src/Gx/Ava.antt =====
-- The check that a JSON Schema stays within what AVA accepts (app/gx/ava.py): the first problem found,
-- and where. A value that is no object but is used as one raises AttributeError, here `not_a_mapping`.
pub mod Walked
pub mod Sound
use genesys_cx_demo_harness.Base.{
  ℕ, Bool, true, false, not, ◌&&◌, ◌||◌, Text, lit, text_eq, one_of, List, [], ◌∷◌, ◌++◌, any, all,
  is_empty, Option, none, some, leb, ◌==◌, if◌then◌else◌,
}
use genesys_cx_demo_harness.Platform.{Platform, Param}
use genesys_cx_demo_harness.Gx.Normalize.{strip}

-- A JSON value; a number or a Boolean is a scalar.
mutual
  pub data Node : Type 0 where
    object : Fields → Node
    array : Items → Node
    text : Text → Node
    scalar : Param → Node
    null : Node

  pub data Items : Type 0 where
    no_items : Items
    item : Node → Items → Items

  pub data Fields : Type 0 where
    no_fields : Fields
    field : Text → Node → Fields → Fields

-- `d.get(k)`
unfoldable pub get : Text → Fields → Option Node
get k no_fields = none
get k (field j v fs) = let rest = get k fs in if text_eq k j then some v else rest

abbrev pub forbidden_keywords : List Text
forbidden_keywords =
    lit "oneOf"
    ∷ lit "anyOf"
    ∷ lit "allOf"
    ∷ lit "if"
    ∷ lit "then"
    ∷ lit "else"
    ∷ lit "dependencies"
    ∷ lit "$ref"
    ∷ lit "not"
    ∷ lit "const"
    ∷ []

-- `k in d`
unfoldable pub has_key : Fields → Text → Bool
has_key fs k = elim (get k fs) [ none ↦ false | some v ↦ true ]

-- `node.get("type") == t`
unfoldable pub is_type : Text → Fields → Bool
is_type t fs = elim (get (lit "type") fs) [ some (text s) ↦ text_eq s t | _ ↦ false ]

-- `bool(v)`
unfoldable pub is_true : Node → Bool
is_true (object no_fields) = false
is_true (object (field k v fs)) = true
is_true (array no_items) = false
is_true (array (item x xs)) = true
is_true (text s) = not (is_empty s)
is_true (scalar p) = p.truth
is_true null = false

pub data Problem : Type 0 where
  forbidden_keyword : Text → Problem
  nested_array : Problem
  tuple_items : Problem
  array_of_arrays : Problem
  empty_object : Problem
  dotted_name : Problem
  unsafe_name : Problem
  no_schema : Problem
  array_in_property : Problem
  no_description : Problem
  not_a_mapping : Problem

pub data Check : Type 0 where
  passes : Check
  fails : Text → Problem → Check

-- The next check, unless this one fails.
infixr 6 ◌and_then◌
abbrev pub ◌and_then◌ : Check → Check → Check
passes and_then c = c
(fails w p) and_then c = fails w p

abbrev is_letter : ℕ → Bool
is_letter c = leb b'A' c && leb c b'Z' || leb b'a' c && leb c b'z'

abbrev is_name_char : ℕ → Bool
is_name_char c = is_letter c || leb b'0' c && leb c b'9' || c == b'_' || c == b'-'

-- `[A-Za-z0-9_-]*$`, where `$` also matches before a newline at the end.
unfoldable name_rest : Text → Bool
name_rest [] = true
name_rest (c ∷ s) = let rest = name_rest s in is_name_char c && rest || c == 10 && is_empty s

-- PROPERTY_NAME_RE
unfoldable pub is_name : Text → Bool
unfolding name_rest
is_name [] = false
is_name (c ∷ s) = is_letter c && name_rest s

unfoldable pub check_property_name : Text → Text → Check
unfolding is_name
check_property_name name where_text =
    let place = where_text ++ b'.' ∷ name in
    if any (λ c. c == b'.') name
    then fails place dotted_name
    else (if is_name name then passes else fails place unsafe_name)

-- The loop over FORBIDDEN_KEYWORDS.
unfoldable pub check_keywords : Text → Fields → List Text → Check
unfolding has_key
check_keywords where_text fs [] = passes
check_keywords where_text fs (k ∷ ks) =
    let rest = check_keywords where_text fs ks in
    if has_key fs k then fails where_text (forbidden_keyword k) else rest

module _ ⦃platform : Platform⦄ where
  -- `str(spec.get("description", "")).strip()` is not empty.
  unfoldable pub is_described : Fields → Bool
  is_described fs = elim (get (lit "description") fs) [
    | none ↦ false
    | some (text s) ↦ not (is_empty (strip s))
    | some (scalar p) ↦ not (is_empty (strip p.shown))
    | _ ↦ true
  ]

  -- What is asked of `items` before it is walked.
  abbrev pub check_item : Text → Node → Check → Check
  check_item w (array xs) inner = fails w tuple_items
  check_item w (object gs) inner =
      if is_type (lit "array") gs then fails (w ++ lit ".items") array_of_arrays else inner
  check_item w (text s) inner = passes
  check_item w (scalar p) inner = passes
  check_item w null inner = passes

  -- What is asked of a property's schema before it is walked.
  abbrev pub check_property : Text → Node → Check → Check
  check_property child (object gs) inner =
      if is_type (lit "array") gs
      then fails child array_in_property
      else (if is_described gs then inner else fails child no_description)
  check_property child (array xs) inner = fails child no_schema
  check_property child (text s) inner = fails child no_schema
  check_property child (scalar p) inner = fails child no_schema
  check_property child null inner = fails child no_schema

  -- The case of a node that is no array; `inner` is the loop over its properties.
  abbrev pub check_properties : Text → Fields → Option Node → Check → Check
  check_properties w fs none inner =
      if is_type (lit "object") fs then fails w empty_object else passes
  check_properties w fs (some null) inner =
      if is_type (lit "object") fs then fails w empty_object else passes
  check_properties w fs (some (object ps)) inner =
      if is_true (object ps) then inner else fails w empty_object
  check_properties w fs (some (array xs)) inner =
      if is_true (array xs) then inner else fails w empty_object
  check_properties w fs (some (text t)) inner =
      if is_true (text t) then inner else fails w empty_object
  check_properties w fs (some (scalar p)) inner =
      if is_true (scalar p) then inner else fails w empty_object

  -- `_walk`, with its use of `items` and its loop over `properties`.
  unfoldable mutual
    unfolding check_keywords is_type is_true check_property_name is_described

    pub walk : Bool → Text → Node → Check
    walk is_root w (object fs) =
        let items = walk_items w fs in
        let properties = walk_properties w fs in
        check_keywords w fs forbidden_keywords
        and_then (if is_type (lit "array") fs
            then (if is_root then items else fails w nested_array)
            else check_properties w fs (get (lit "properties") fs) properties)
    walk is_root w (array xs) = passes
    walk is_root w (text s) = passes
    walk is_root w (scalar p) = passes
    walk is_root w null = passes

    pub walk_items : Text → Fields → Check
    walk_items w no_fields = passes
    walk_items w (field k v fs) =
        let inner = walk false (w ++ lit ".items") v in
        let rest = walk_items w fs in if text_eq (lit "items") k then check_item w v inner else rest

    pub walk_properties : Text → Fields → Check
    walk_properties w no_fields = passes
    walk_properties w (field k v fs) =
        let inner = walk_named w v in
        let rest = walk_properties w fs in if text_eq (lit "properties") k then inner else rest

    pub walk_named : Text → Node → Check
    walk_named w (object ps) = walk_each w ps
    walk_named w (array xs) = fails w not_a_mapping
    walk_named w (text s) = fails w not_a_mapping
    walk_named w (scalar p) = fails w not_a_mapping
    walk_named w null = fails w not_a_mapping

    pub walk_each : Text → Fields → Check
    walk_each w no_fields = passes
    walk_each w (field name spec fs) =
        let child = w ++ b'.' ∷ name in
        let inner = walk false child spec in
        let rest = walk_each w fs in
        check_property_name name w and_then (check_property child spec inner and_then rest)

  unfoldable pub validate_ava_schema : Fields → Text → Check
  unfolding walk
  validate_ava_schema schema w = walk true w (object schema)

  -- `d.get(k, {})`, of which `get` or the walk is asked next.
  abbrev get_dict : Text → Text → Fields → (Fields → Check) → Check
  get_dict w k fs next = elim (get k fs) [
    | none ↦ next no_fields
    | some (object gs) ↦ next gs
    | _ ↦ fails w not_a_mapping
  ]

  -- `validate_contract`; a schema that is no object is walked, which does nothing.
  unfoldable pub validate_contract : Fields → Text → Check
  unfolding walk
  validate_contract definition w = get_dict w (lit "contract") definition (λ contract.
      get_dict w (lit "input") contract
        (λ input. walk true (w ++ lit " input") (schema_of (lit "inputSchema") input))
      and_then get_dict w (lit "output") contract
          (λ output. walk true (w ++ lit " output") (schema_of (lit "successSchema") output)))
    where
      schema_of : Text → Fields → Node
      schema_of k fs = elim (get k fs) [ none ↦ object no_fields | some v ↦ v ]
