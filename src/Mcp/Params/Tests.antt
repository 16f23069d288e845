-- ===== src/Mcp/Params/Tests.antt =====
-- Calls with parameters, and the theorem at one of them.
use plug_node.Base.{◌≡◌, refl, true, false, none, some, [], ◌∷◌}
use plug_node.Values.Number.{whole}
use plug_node.Values.Json.{Json, null, num, str, Fields, end, field, get}
use plug_node.Mcp.Types.{a_string, a_number, a_boolean, ParamType, ParamSchema, Schemas}
use plug_node.Mcp.Params.{
  Language, ok, err, is_required, must_be_at_most, is_unknown, less, coerce_string, coerce_number,
  coerce_boolean, coerce_object, check_number, check_string, coerce_typed, absent,
  coerce_param_value, coerce_all, is_in, unknown_name, validate_params, Coerced,
}
use plug_node.Mcp.Params.Sound.{Answers, AreKnown, validate_params-Answers}

params_code : Unit {0}
unfolding get less coerce_string coerce_number coerce_boolean coerce_object check_number
    check_string coerce_typed absent coerce_param_value coerce_all is_in unknown_name
    validate_params
params_code = tt

abbrev language : Language
language = record {
  trim = λ t. t;
  show = λ x. "0";
  read_number = λ t. whole 7;
  parse = λ t. none;
  inherited = λ t. none;
}

abbrev schema : ParamType → ParamSchema
schema type = record {
  type = type;
  required = true;
  default = none;
  maximum = some (whole 10);
  minimum = none;
}

abbrev schemas : Schemas
schemas =
    ("name", schema a_string)
    ∷ ("limit", schema a_number)
    ∷ ("active", record (schema a_boolean) { required = false })
    ∷ []

abbrev call : Json → Fields
call limit = field "limit" limit (field "name" (str "n") end)

coerces_text :
    validate_params language schemas (call (str "7"))
    ≡ ok (("name", str "n") ∷ ("limit", num (whole 7)) ∷ ("active", null) ∷ [])
unfolding params_code
coerces_text = refl

refuses_large :
    validate_params language schemas (call (num (whole 11))) ≡ err (must_be_at_most "limit")
unfolding params_code
refuses_large = refl

refuses_missing : validate_params language schemas (call null) ≡ err (is_required "limit")
unfolding params_code
refuses_missing = refl

refuses_unknown :
    validate_params language schemas (field "x" null (call (num (whole 1)))) ≡ err (is_unknown "x")
unfolding params_code
refuses_unknown = refl

abbrev coerced : Coerced
coerced = ("name", str "n") ∷ ("limit", num (whole 7)) ∷ ("active", null) ∷ []

validate_params-Answers_example :
    Answers language schemas coerced × AreKnown language schemas (call (str "7"))
validate_params-Answers_example =
    validate_params-Answers language schemas (call (str "7")) coerced coerces_text
