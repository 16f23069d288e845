-- ===== src/Mcp/Governance.antt =====
-- mcp/governance.ts: the limits on what a capability may read, and the columns that are masked.
pub mod Limits
pub mod Masking
mod Tests
use Prim.Native.String.{String}
use text.Mathlib.Text.{◌==◌ as str_eq}
use plug_node.Base.{
  ℕ, suc, ◌*◌, max, min, Bool, true, false, not, ◌&&◌, ◌||◌, Option, none, some, List, [], ◌∷◌,
  if◌then◌else◌, ltb, is_empty, map, keep_if,
}
use plug_node.Identity.{includes}
use plug_node.Values.Number.{Number, fraction, negative, floor, is_positive}
use plug_node.Values.Json.{Json, null, bool, num, str, Fields, end, field, get}
use plug_node.Mcp.Types.{
  ParamSchema, Schemas, GovernanceConfig, Capability, Execution, sql_execution, tools_execution,
}

-- `isActiveFilter`
unfoldable pub is_active_filter : (trim : String → String) → Option Json → Bool
is_active_filter trim none = false
is_active_filter trim (some null) = false
is_active_filter trim (some (str t)) = not (str_eq (trim t) "")
is_active_filter trim (some _) = true

-- `hasActiveFilter`
unfoldable pub has_active_filter : (trim : String → String) → Fields → List String → Bool
has_active_filter trim params [] = false
has_active_filter trim params (name ∷ names) =
    is_active_filter trim (get name params) || has_active_filter trim params names

-- `a ?? b`
abbrev pub or_nullish : Option Json → Option Json → Option Json
or_nullish none b = b
or_nullish (some null) b = b
or_nullish (some v) b = some v

-- `params.limite ?? params.limit` as a number, unless it is null or undefined; `to_number` is
-- `Number` of a value that is no number.
abbrev pub as_number : (to_number : Json → Number) → Option Json → Option Number
as_number to_number none = none
as_number to_number (some null) = none
as_number to_number (some (num x)) = some x
as_number to_number (some v) = some (to_number v)

unfoldable pub limit_value : (to_number : Json → Number) → Fields → Option Number
limit_value to_number params =
    as_number to_number (or_nullish (get "limite" params) (get "limit" params))

abbrev pub execution_max : Capability → ℕ
execution_max c = elim c.execution [
  | sql_execution sql max_rows ↦ max_rows
  | tools_execution operation static_params ↦ c.governance.max_rows
]

-- `Math.min(requested, Math.trunc(limitValue))`, if the limit is a finite number above 0.
abbrev pub cap_by : Option Number → ℕ → ℕ
cap_by (some (fraction n d)) requested = if ltb 0 n then min requested (floor n d) else requested
cap_by _ requested = requested

-- `resolveEffectiveMaxRows`
unfoldable pub resolve_effective_max_rows : (to_number : Json → Number) → Capability → Fields → ℕ
resolve_effective_max_rows to_number c params =
    max 1 (cap_by (limit_value to_number params) (min c.governance.max_rows (execution_max c)))

-- `Number.isFinite(limitValue) && limitValue > governance.maxRows`
abbrev pub exceeds : Option Number → ℕ → Bool
exceeds (some (fraction n d)) most = ltb (most * suc d) n
exceeds _ most = false

abbrev pub filters_of_names : List String → Schemas → List String
filters_of_names [] schemas =
    keep_if (λ name. not (str_eq name "limite") && not (str_eq name "limit"))
      (map (λ p. p.0) schemas)
filters_of_names (name ∷ names) schemas = name ∷ names

unfoldable pub filter_names : Capability → List String
filter_names c = elim c.governance.filter_param_names [
  | none ↦ filters_of_names [] c.parameters
  | some names ↦ filters_of_names names c.parameters
]

pub data GovernanceResult : Type 0 where
  accepted lacks_filter over_limit : GovernanceResult

-- `enforceGovernance`
unfoldable pub enforce_governance :
    (trim : String → String) (to_number : Json → Number) → Capability → Fields → GovernanceResult
enforce_governance trim to_number c params =
    if c.governance.require_at_least_one_filter
      && not (has_active_filter trim params (filter_names c))
    then lacks_filter
    else if exceeds (limit_value to_number params) c.governance.max_rows
    then over_limit
    else accepted

-- The set of masked columns; `normal` is `trim().toLowerCase()`.
unfoldable pub masked_set : (normal : String → String) → List String → List String
masked_set normal columns = keep_if (λ c. not (str_eq c "")) (map normal columns)

-- The loop over the keys of a row.
unfoldable pub mask_row : (lower : String → String) → List String → Fields → Fields
mask_row lower masked end = end
mask_row lower masked (field k v fs) =
    let rest = mask_row lower masked fs in
    if includes (lower k) masked then field k (str "[redacted]") rest else field k v rest

unfoldable pub mask_rows : (lower : String → String) → List String → List Fields → List Fields
mask_rows lower [] rows = rows
mask_rows lower (c ∷ cs) rows = map (mask_row lower (c ∷ cs)) rows

-- `maskSensitiveColumns`
unfoldable pub mask_sensitive_columns :
    (trim lower : String → String) → List Fields → Option (List String) → List Fields
mask_sensitive_columns trim lower rows none = rows
mask_sensitive_columns trim lower rows (some []) = rows
mask_sensitive_columns trim lower rows (some (c ∷ cs)) =
    mask_rows lower (masked_set (λ t. lower (trim t)) (c ∷ cs)) rows
