-- ===== src/Samples/Contracts.antt =====
-- The theorem on the contracts, applied.
use genesys_cx_demo_harness.Base.{false, lit, [], ◌∷◌}
use genesys_cx_demo_harness.Store.{ok, raised}
use genesys_cx_demo_harness.Gx.Ava.{Fields, no_fields, field, text}
use genesys_cx_demo_harness.Gx.Contracts.{
  InputField, GxAction, Definition, output_schema, input_schema,
}
use genesys_cx_demo_harness.Samples.{toy}

-- An optional input, which the query uses.
abbrev identifier : InputField
identifier = record {
  name = lit "id";
  type = lit "string";
  description = lit "ANI";
  required = false;
}

abbrev lookup_action : GxAction
lookup_action = record {
  slug = lit "look";
  name = lit "Look";
  method = lit "GET";
  path = lit "/gx";
  output_model = record {
    name = lit "Out";
    properties =
        (
          lit "found",
          field (lit "type") (text (lit "boolean"))
              (field (lit "description") (text (lit "F")) no_fields),
        )
        ∷ [];
  };
  inputs = identifier ∷ [];
  query_params = lit "id" ∷ [];
  body_fields = [];
  output_is_array = false;
}

abbrev output : Fields
output = elim (output_schema lookup_action.output_model false) [
  | ok schema ↦ schema
  | raised e ↦ no_fields
]

abbrev definition : Definition
definition = record {
  name = lit "Look";
  request_url = lit "h/gx?id=$esc.url(\"${input.id}\")";
  request_type = lit "GET";
  request_template = lit "${input.rawRequest}";
  input_schema = input_schema lookup_action;
  output_schema = output;
}
