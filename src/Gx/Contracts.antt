-- ===== src/Gx/Contracts.antt =====
-- The data-action contracts (app/gx/contracts.py): schemas, request templates, and the checks of
-- `build_action`. What pydantic's `model_json_schema` lists of a model is part of the action.
mod Templates
unfoldable pub use Templates.*
pub mod Required
use genesys_cx_demo_harness.Base.{
  Bool, true, false, not, ◌&&◌, ◌||◌, Text, lit, text_eq, text_leb, one_of, List, [], ◌∷◌, ◌++◌,
  map, filter, all, is_empty, merge, lookup, Option, none, some, if◌then◌else◌, sort_by,
}
use genesys_cx_demo_harness.Platform.{Platform}
use genesys_cx_demo_harness.Store.{
  Result, ok, raised, ◌>>=◌, nested_contract, missing_contract_field, unescaped_input,
  optional_referenced_input, ava_compliance,
}
use genesys_cx_demo_harness.Seed.Rows.{each}
use genesys_cx_demo_harness.Gx.Ava.{
  Node, object, array, text, scalar, null, Items, no_items, item, Fields, no_fields, field, get,
  is_true, Check, passes, fails, validate_contract,
}

pub record InputField : Type 0 where
  pub name : Text
  pub type : Text
  pub description : Text
  pub required : Bool

-- A model's name, and the properties of its JSON schema.
pub record OutputModel : Type 0 where
  pub name : Text
  pub properties : List (Text × Fields)

pub record GxAction : Type 0 where
  pub slug : Text
  pub name : Text
  pub method : Text
  pub path : Text
  pub output_model : OutputModel
  pub inputs : List InputField
  pub query_params : List Text
  pub body_fields : List Text
  pub output_is_array : Bool

-- The definition that is returned, whose other entries are constants.
pub record Definition : Type 0 where
  pub name : Text
  pub request_url : Text
  pub request_type : Text
  pub request_template : Text
  pub input_schema : Fields
  pub output_schema : Fields

abbrev scalars : List Text
scalars = lit "string" ∷ lit "boolean" ∷ lit "integer" ∷ lit "number" ∷ []

abbrev draft : Node
draft = text (lit "http://json-schema.org/draft-04/schema#")

abbrev flag_node : Bool → Node
flag_node true = scalar (record { truth = true; shown = lit "True" })
flag_node false = scalar (record { truth = false; shown = lit "False" })

unfoldable pub text_items : List Text → Items
text_items [] = no_items
text_items (t ∷ ts) = item (text t) (text_items ts)

abbrev kind_of : Fields → Option Text
kind_of spec = elim (get (lit "type") spec) [ some (text k) ↦ some k | _ ↦ none ]

unfoldable scalar_schema : Text → Text × Fields → Result (Text × Fields)
scalar_schema model (name, spec) = elim (kind_of spec) [
  | none ↦ raised (nested_contract (model ++ b'.' ∷ name))
  | some kind ↦
      if one_of kind scalars
      then ok (
        name,
        field (lit "type") (text kind) (elim (get (lit "description") spec) [
          | none ↦ no_fields
          | some d ↦ if is_true d then field (lit "description") d no_fields else no_fields
        ]),
      )
      else raised (nested_contract (model ++ b'.' ∷ name))
]

unfoldable as_fields : List (Text × Fields) → Fields
as_fields [] = no_fields
as_fields ((name, spec) ∷ ps) = field name (object spec) (as_fields ps)

unfoldable object_schema : OutputModel → Result Fields
unfolding scalar_schema as_fields
object_schema model = do
  properties ← each (scalar_schema model.name) model.properties
  ok (
      field (lit "type") (text (lit "object")) (
        field (lit "properties") (object (as_fields properties)) (
          field (lit "required")
            (array (text_items (sort_by text_leb (map (λ (p : Text × Fields). p.0) properties))))
            (field (lit "additionalProperties") (flag_node true) no_fields))))

unfoldable titled_schema : Text → Bool → Fields → Fields
titled_schema name true inner = field (lit "$schema") draft (
    field (lit "title") (text (name ++ lit " feed"))
      (field (lit "type") (text (lit "array")) (field (lit "items") (object inner) no_fields)))
titled_schema name false inner =
    field (lit "$schema") draft (field (lit "title") (text (name ++ lit " output")) inner)

unfoldable pub output_schema : OutputModel → Bool → Result Fields
unfolding object_schema titled_schema
output_schema model is_array = do
  inner ← object_schema model
  ok (titled_schema model.name is_array inner)

-- The inputs that must be given: those marked so, and those that the URL or the body uses.
unfoldable pub required_inputs : GxAction → List Text
required_inputs action = sort_by text_leb (
    map (λ (f : InputField). f.name)
      (filter
        (λ (f : InputField).
          f.required || one_of f.name (action.query_params ++ action.body_fields))
        action.inputs))

unfoldable input_properties : List InputField → Fields
unfolding as_fields
input_properties fs = as_fields (
    merge [] (
      map
        (λ (f : InputField). (
          f.name,
          field (lit "type") (text f.type)
              (field (lit "description") (text f.description) no_fields),
        ))
        fs))

unfoldable pub input_schema : GxAction → Fields
unfolding input_properties required_inputs
input_schema action = field (lit "$schema") draft (
    field (lit "title") (text (action.name ++ lit " input")) (
      field (lit "type") (text (lit "object")) (
        field (lit "properties") (object (input_properties action.inputs)) (
          field (lit "required") (array (text_items (required_inputs action)))
            (field (lit "additionalProperties") (flag_node false) no_fields)))))

-- The type of an input is a number's or a Boolean's.
abbrev is_bare : List InputField → Text → Bool
is_bare inputs name =
    elim (lookup name (merge [] (map (λ (f : InputField). (f.name, f.type)) inputs))) [
      | none ↦ false
      | some t ↦ one_of t (lit "integer" ∷ lit "number" ∷ lit "boolean" ∷ [])
    ]

-- `requestUrlTemplate` and `requestTemplate`
unfoldable pub request_url : GxAction → Text → Text
request_url action base_url =
    if is_empty action.query_params
    then base_url ++ action.path
    else base_url ++ action.path ++ b'?' ∷ join_with b'&' (map query_part action.query_params)

unfoldable pub request_template : GxAction → Text
request_template action =
    if is_empty action.body_fields
    then lit "${input.rawRequest}"
    else b'{'
        ∷ join_with b','
            (map (λ name. body_part (is_bare action.inputs name) name) action.body_fields)
      ++ lit "}"

-- The strings of a list, and the names that a schema requires: `inputSchema.get("required", [])`.
unfoldable pub texts_of : Items → List Text
texts_of no_items = []
texts_of (item (text t) rest) = t ∷ texts_of rest
texts_of (item n rest) = texts_of rest

unfoldable pub required_of : Fields → List Text
unfolding texts_of
required_of schema = elim (get (lit "required") schema) [
  | some (array items) ↦ texts_of items
  | _ ↦ []
]

-- The checks on the request.
unfoldable pub check_request : Text → Definition → Result Definition
unfolding required_of
check_request slug d =
    if is_empty d.request_url || is_empty d.request_type || is_empty d.request_template
    then raised (missing_contract_field slug)
    else (if not (is_empty (unescaped d.request_url))
          || not (is_empty (unescaped d.request_template))
        then raised (unescaped_input slug)
        else (if all (λ name. one_of name (required_of d.input_schema))
              (referenced d.request_url ++ referenced d.request_template)
            then ok d
            else raised (optional_referenced_input slug)))

-- The part of the definition that `validate_contract` reads.
abbrev pub contract_of : Definition → Fields
contract_of d =
    field (lit "contract")
      (object (
        field (lit "input") (object (field (lit "inputSchema") (object d.input_schema) no_fields)) (
          field (lit "output")
            (object (field (lit "successSchema") (object d.output_schema) no_fields)) no_fields)))
      no_fields

module _ ⦃platform : Platform⦄ where
  unfoldable pub build_action : GxAction → Text → Result Definition
  unfolding output_schema input_schema request_url request_template check_request
  build_action action base_url = do
    output ← output_schema action.output_model action.output_is_array
    d ← check_request action.slug (record {
      name = action.name;
      request_url = request_url action base_url;
      request_type = action.method;
      request_template = request_template action;
      input_schema = input_schema action;
      output_schema = output;
    })
    elim (validate_contract (contract_of d) action.slug) [
      | passes ↦ ok d
      | fails w p ↦ raised (ava_compliance w)
    ]
