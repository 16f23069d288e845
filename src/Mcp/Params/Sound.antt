-- ===== src/Mcp/Params/Sound.antt =====
-- mcp/paramValidator.ts: what a validated call holds.
use Prim.Native.String.{String}
use plug_node.Base.{
  ◌≡◌, refl, subst, Bool, true, false, ◌&&◌, Option, none, some, [], ◌∷◌, if◌then◌else◌, at_if,
  arith,
}
use plug_node.Values.Number.{Number}
use plug_node.Values.Json.{Json, null, bool, num, str, arr, obj, Fields, end, field}
use plug_node.Mcp.Types.{ParamType, a_string, a_number, a_boolean, an_object, ParamSchema, Schemas}
use plug_node.Mcp.Params.{
  Language, Result, ok, err, is_finite, is_blank, is_blank_string, coerce_string, coerce_number,
  coerce_boolean, coerce_object, is_below, is_above, check_number, check_string, check_boolean,
  check_object, coerce_typed, absent, coerce_param_value, raw_value, Coerced, and_later, coerce_all,
  is_in, unknown_name, unless_unknown, validate_params,
}

-- A value of the type of a schema, within its limits.
pub data Typed (g : Language) (s : ParamSchema) : ParamType → Json → Type 0 where
  a_text : (t : String) → (s.required ≡ true → is_blank g t ≡ false) → Typed g s a_string (str t)
  within :
      (x : Number)
      → is_finite x ≡ true
      → is_below s.minimum x ≡ false
      → is_above s.maximum x ≡ false
      → Typed g s a_number (num x)
  a_flag : (b : Bool) → Typed g s a_boolean (bool b)
  fields : (fs : Fields) → Typed g s an_object (obj fs)

-- What a schema lets through: a value of its type, or, where nothing is required, its default or null.
pub data Conforms (g : Language) (s : ParamSchema) : Json → Type 0 where
  given : {v : Json} → Typed g s s.type v → Conforms g s v
  by_default : {v : Json} → s.required ≡ false → s.default ≡ some v → Conforms g s v
  left_out : s.required ≡ false → s.default ≡ none → Conforms g s null

Good : (Json → Type 0) → Result Json → Type 0
Good P (ok v) = P v
Good P (err e) = Unit

coerce_number-finite :
    (g : Language) (v : Json) (x : Number) → coerce_number g v ≡ some x → is_finite x ≡ true
unfolding coerce_number
coerce_number-finite g (num y) x h = ground arith
coerce_number-finite g (str t) x h = ground arith
coerce_number-finite g null x h = cc
coerce_number-finite g (bool b) x h = cc
coerce_number-finite g (arr vs) x h = cc
coerce_number-finite g (obj fs) x h = cc

check_number-Good :
    (g : Language) (name : String) (s : ParamSchema) (o : Option Number)
    → ((x : Number) → o ≡ some x → is_finite x ≡ true)
    → Good (Typed g s a_number) (check_number name s o)
unfolding check_number Good
check_number-Good g name s none h = tt
check_number-Good g name s (some x) h =
    at_if (Good (Typed g s a_number)) (is_below s.minimum x) _ _ (λ _. tt)
      λ low.
        at_if (Good (Typed g s a_number)) (is_above s.maximum x) _ _ (λ _. tt)
          λ high. within x (h x refl) low high

check_string-Good :
    (g : Language) (name : String) (s : ParamSchema) (o : Option String)
    → Good (Typed g s a_string) (check_string g name s o)
unfolding check_string Good
check_string-Good g name s none = tt
check_string-Good g name s (some t) =
    at_if (Good (Typed g s a_string)) (s.required && is_blank g t) _ _ (λ _. tt)
      λ h. a_text t λ r. ground arith

coerce_typed-Good :
    (g : Language) (name : String) (s : ParamSchema) (type : ParamType) (v : Json)
    → Good (Typed g s type) (coerce_typed g name s type v)
unfolding coerce_typed Good
coerce_typed-Good g name s a_string v = check_string-Good g name s (coerce_string g v)
coerce_typed-Good g name s a_number v =
    check_number-Good g name s (coerce_number g v) (coerce_number-finite g v)
coerce_typed-Good g name s a_boolean v = by_flag (coerce_boolean v)
  where
    by_flag : (o : Option Bool) → Good (Typed g s a_boolean) (check_boolean name o)
    by_flag none = tt
    by_flag (some b) = a_flag b
coerce_typed-Good g name s an_object v = by_fields (coerce_object g v)
  where
    by_fields : (o : Option Fields) → Good (Typed g s an_object) (check_object name o)
    by_fields none = tt
    by_fields (some fs) = fields fs

absent-Good : (g : Language) (name : String) (s : ParamSchema) → Good (Conforms g s) (absent name s)
unfolding absent Good
absent-Good g name s =
    at_if (Good (Conforms g s)) s.required _ _ (λ _. tt) λ free. by_default_of s.default refl free
  where
    by_default_of :
        (o : Option Json)
        → s.default ≡ o
        → s.required ≡ false
        → Good (Conforms g s) (elim o [ some v ↦ ok v | none ↦ ok null ])
    by_default_of none e free = left_out free e
    by_default_of (some v) e free = by_default free e

given-Good :
    (g : Language) (s : ParamSchema) (r : Result Json)
    → Good (Typed g s s.type) r
    → Good (Conforms g s) r
unfolding Good
given-Good g s (ok v) h = given h
given-Good g s (err e) h = tt

coerce_given-Good :
    (g : Language) (name : String) (s : ParamSchema) (v : Json)
    → Good (Conforms g s) (
        if s.required && is_blank_string g v then absent name s else coerce_typed g name s s.type v)
coerce_given-Good g name s v =
    at_if (Good (Conforms g s)) (s.required && is_blank_string g v) _ _ (λ _. absent-Good g name s)
      λ _. given-Good g s _ (coerce_typed-Good g name s s.type v)

coerce_param_value-Good :
    (g : Language) (name : String) (s : ParamSchema) (o : Option Json)
    → Good (Conforms g s) (coerce_param_value g name s o)
unfolding coerce_param_value
coerce_param_value-Good g name s none = absent-Good g name s
coerce_param_value-Good g name s (some null) = absent-Good g name s
coerce_param_value-Good g name s (some (bool b)) = coerce_given-Good g name s (bool b)
coerce_param_value-Good g name s (some (num x)) = coerce_given-Good g name s (num x)
coerce_param_value-Good g name s (some (str t)) = coerce_given-Good g name s (str t)
coerce_param_value-Good g name s (some (arr vs)) = coerce_given-Good g name s (arr vs)
coerce_param_value-Good g name s (some (obj fs)) = coerce_given-Good g name s (obj fs)

-- Coerced parameters with the names of the schemas, in order, each value as its schema wants it.
pub data Answers (g : Language) : Schemas → Coerced → Type 0 where
  done : Answers g [] []
  answers :
      {name : String} {s : ParamSchema} {v : Json} {schemas : Schemas} {c : Coerced}
      → Conforms g s v
      → Answers g schemas c
      → Answers g ((name, s) ∷ schemas) ((name, v) ∷ c)

IsAnswer : Language → Schemas → Result Coerced → Type 0
IsAnswer g schemas (ok c) = Answers g schemas c
IsAnswer g schemas (err e) = Unit

and_later-IsAnswer :
    (g : Language) (name : String) (s : ParamSchema) (schemas : Schemas) (r : Result Json)
    (later : Result Coerced)
    → Good (Conforms g s) r
    → IsAnswer g schemas later
    → IsAnswer g ((name, s) ∷ schemas) (and_later name r later)
unfolding IsAnswer Good
and_later-IsAnswer g name s schemas (err e) later h k = tt
and_later-IsAnswer g name s schemas (ok v) (err e) h k = tt
and_later-IsAnswer g name s schemas (ok v) (ok c) h k = answers h k

coerce_all-IsAnswer :
    (g : Language) (schemas : Schemas) (raw : Fields)
    → IsAnswer g schemas (coerce_all g schemas raw)
unfolding coerce_all IsAnswer
coerce_all-IsAnswer g [] raw = done
coerce_all-IsAnswer g ((name, s) ∷ schemas) raw =
    and_later-IsAnswer g name s schemas (coerce_param_value g name s (raw_value g name raw))
      (coerce_all g schemas raw) (coerce_param_value-Good g name s (raw_value g name raw))
      (coerce_all-IsAnswer g schemas raw)

-- Every raw parameter has a schema, or a name that all objects inherit.
abbrev pub AreKnown : Language → Schemas → Fields → Type 0
AreKnown g schemas end = Unit
AreKnown g schemas (field name v raw) = (is_in g name schemas ≡ true) × AreKnown g schemas raw

unknown_name-AreKnown :
    (g : Language) (schemas : Schemas) (raw : Fields)
    → unknown_name g schemas raw ≡ none
    → AreKnown g schemas raw
unfolding unknown_name
unknown_name-AreKnown g schemas end h = tt
unknown_name-AreKnown g schemas (field name v raw) h =
    let known : is_in g name schemas ≡ true = ground (arith, h) in
    (known, unknown_name-AreKnown g schemas raw (ground (arith, h, known)))

unless_unknown-ok :
    (o : Option String) (r : Result Coerced) (c : Coerced)
    → unless_unknown o r ≡ ok c
    → (o ≡ none) × (r ≡ ok c)
unless_unknown-ok o (err e) c h = cc
unless_unknown-ok none (ok d) c h = (refl, h)
unless_unknown-ok (some name) (ok d) c h = cc

-- Where a call is let through, its coerced parameters have exactly the names of the schemas, in their
-- order; each value is of its schema's type, finite and within the limits if it is a number and not
-- blank if it is a required text, or else it is the default, or null where there is none, of a
-- parameter that is not required; and each raw parameter has a schema or a name that every object
-- inherits.
pub validate_params-Answers :
    (g : Language) (schemas : Schemas) (raw : Fields) (c : Coerced)
    → validate_params g schemas raw ≡ ok c
    → Answers g schemas c × AreKnown g schemas raw
unfolding validate_params IsAnswer
validate_params-Answers g schemas raw c h =
    let (known, coerced) =
      unless_unknown-ok (unknown_name g schemas raw) (coerce_all g schemas raw) c h in
    (
      subst (IsAnswer g schemas) coerced (coerce_all-IsAnswer g schemas raw),
      unknown_name-AreKnown g schemas raw known,
    )
