-- ===== src/Mcp/Params.antt =====
-- mcp/paramValidator.ts: the parameters of a call are coerced to the types of their schemas, or the
-- call is refused.
pub mod Sound
mod Tests
use Prim.Native.String.{String}
use text.Mathlib.Text.{◌==◌ as str_eq}
use plug_node.Base.{
  ℕ, suc, ◌*◌, Bool, true, false, not, ◌&&◌, ◌||◌, Option, none, some, List, [], ◌∷◌, if◌then◌else◌,
  ltb,
}
use plug_node.Values.Number.{Number, nan, infinity, neg_infinity, fraction, negative}
use plug_node.Values.Json.{Json, null, bool, num, str, obj, Fields, end, field, get}
use plug_node.Mcp.Types.{ParamType, a_string, a_number, a_boolean, an_object, ParamSchema, Schemas}

-- What the language does: `trim`, `String(x)` of a number, `Number(text)`, `JSON.parse` where it
-- answers, and the names that every object has from Object.prototype.
pub record Language : Type 0 where
  pub trim : String → String
  pub show : Number → String
  pub read_number : String → Number
  pub parse : String → Option Json
  -- What every object inherits under a name. A function stands as an array, which no type of a schema
  -- takes either. A schema named __proto__, which an assignment treats apart, is left out.
  pub inherited : String → Option Json

pub data ParamError : Type 0 where
  is_required must_be_string must_be_number must_be_boolean must_be_object : String → ParamError
  must_be_at_least must_be_at_most : String → ParamError
  is_unknown : String → ParamError

pub data Result (A : Type 0) : Type 0 where
  ok : A → Result A
  err : ParamError → Result A

abbrev pub is_finite : Number → Bool
is_finite (fraction n d) = true
is_finite (negative n d) = true
is_finite _ = false

-- `x < y`
unfoldable pub less : Number → Number → Bool
less nan y = false
less x nan = false
less infinity y = false
less x neg_infinity = false
less neg_infinity y = true
less x infinity = true
less (fraction n d) (fraction m e) = ltb (n * suc e) (m * suc d)
less (fraction n d) (negative m e) = false
less (negative n d) (fraction m e) = true
less (negative n d) (negative m e) = ltb (suc m * suc d) (suc n * suc e)

abbrev pub is_blank : Language → String → Bool
is_blank g t = str_eq (g.trim t) ""

-- `isBlankString`
abbrev pub is_blank_string : Language → Json → Bool
is_blank_string g (str t) = is_blank g t
is_blank_string g _ = false

unfoldable pub coerce_string : Language → Json → Option String
coerce_string g (str t) = some t
coerce_string g (num x) = some (g.show x)
coerce_string g (bool true) = some "true"
coerce_string g (bool false) = some "false"
coerce_string g _ = none

unfoldable pub coerce_number : Language → Json → Option Number
coerce_number g (num x) = if is_finite x then some x else none
coerce_number g (str t) =
    if is_blank g t
    then none
    else if is_finite (g.read_number t)
    then some (g.read_number t)
    else none
coerce_number g _ = none

unfoldable pub coerce_boolean : Json → Option Bool
coerce_boolean (bool b) = some b
coerce_boolean (str t) =
    if str_eq t "true" then some true else if str_eq t "false" then some false else none
coerce_boolean _ = none

abbrev pub as_object : Option Json → Option Fields
as_object (some (obj fs)) = some fs
as_object _ = none

unfoldable pub coerce_object : Language → Json → Option Fields
coerce_object g (obj fs) = some fs
coerce_object g (str t) = if is_blank g t then none else as_object (g.parse t)
coerce_object g _ = none

-- `schema.minimum !== undefined && value < schema.minimum`, and the same of the maximum.
abbrev pub is_below : Option Number → Number → Bool
is_below none x = false
is_below (some low) x = less x low

abbrev pub is_above : Option Number → Number → Bool
is_above none x = false
is_above (some high) x = less high x

abbrev pub or_fail : ParamError → Option Json → Result Json
or_fail e none = err e
or_fail e (some v) = ok v

unfoldable pub check_number : String → ParamSchema → Option Number → Result Json
check_number name s none = err (must_be_number name)
check_number name s (some x) =
    if is_below s.minimum x
    then err (must_be_at_least name)
    else if is_above s.maximum x
    then err (must_be_at_most name)
    else ok (num x)

unfoldable pub check_string : Language → String → ParamSchema → Option String → Result Json
check_string g name s none = err (must_be_string name)
check_string g name s (some t) =
    if s.required && is_blank g t then err (is_required name) else ok (str t)

abbrev pub check_boolean : String → Option Bool → Result Json
check_boolean name none = err (must_be_boolean name)
check_boolean name (some b) = ok (bool b)

abbrev pub check_object : String → Option Fields → Result Json
check_object name none = err (must_be_object name)
check_object name (some fs) = ok (obj fs)

-- The `switch` over the type of the schema.
unfoldable pub coerce_typed : Language → String → ParamSchema → ParamType → Json → Result Json
coerce_typed g name s a_string v = check_string g name s (coerce_string g v)
coerce_typed g name s a_number v = check_number name s (coerce_number g v)
coerce_typed g name s a_boolean v = check_boolean name (coerce_boolean v)
coerce_typed g name s an_object v = check_object name (coerce_object g v)

unfoldable pub absent : String → ParamSchema → Result Json
absent name s =
    if s.required then err (is_required name) else elim s.default [ some v ↦ ok v | none ↦ ok null ]

-- `coerceParamValue`, with the coerced value alone.
unfoldable pub coerce_param_value : Language → String → ParamSchema → Option Json → Result Json
coerce_param_value g name s none = absent name s
coerce_param_value g name s (some null) = absent name s
coerce_param_value g name s (some v) =
    if s.required && is_blank_string g v then absent name s else coerce_typed g name s s.type v

abbrev pub Coerced : Type 0
Coerced = List (String × Json)

abbrev pub append_to : String → Json → Result Coerced → Result Coerced
append_to name v (ok rest) = ok ((name, v) ∷ rest)
append_to name v (err e) = err e

abbrev pub and_later : String → Result Json → Result Coerced → Result Coerced
and_later name (ok v) later = append_to name v later
and_later name (err e) later = err e

abbrev pub is_inherited : Language → String → Bool
is_inherited g name = elim (g.inherited name) [ none ↦ false | some v ↦ true ]

-- `rawParams[name]`: the parameter, or what the object inherits under its name.
abbrev pub raw_value : Language → String → Fields → Option Json
raw_value g name raw = elim (get name raw) [ some v ↦ some v | none ↦ g.inherited name ]

-- The loop over the schemas.
unfoldable pub coerce_all : Language → Schemas → Fields → Result Coerced
coerce_all g [] raw = ok []
coerce_all g ((name, s) ∷ schemas) raw =
    and_later name (coerce_param_value g name s (raw_value g name raw)) (coerce_all g schemas raw)

-- `name in schemas`: also a name that every object inherits.
unfoldable pub is_in : Language → String → Schemas → Bool
is_in g name [] = is_inherited g name
is_in g name ((k, s) ∷ schemas) = str_eq k name || is_in g name schemas

-- The loop over the names of the raw parameters: the first that is unknown.
unfoldable pub unknown_name : Language → Schemas → Fields → Option String
unknown_name g schemas end = none
unknown_name g schemas (field name v raw) =
    let later = unknown_name g schemas raw in
    if not (is_in g name schemas) then some name else later

abbrev pub unless_unknown : Option String → Result Coerced → Result Coerced
unless_unknown o (err e) = err e
unless_unknown none (ok coerced) = ok coerced
unless_unknown (some name) (ok coerced) = err (is_unknown name)

unfoldable pub validate_params : Language → Schemas → Fields → Result Coerced
validate_params g schemas raw =
    unless_unknown (unknown_name g schemas raw) (coerce_all g schemas raw)
