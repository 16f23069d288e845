-- ===== src/Mcp/Governance/Tests.antt =====
-- Calls under governance, and the theorems at one of them.
use Prim.Native.String.{String}
use plug_node.Base.{ℕ, ◌≡◌, ◌≤◌, refl, max, min, true, none, some, [], ◌∷◌, arith}
use plug_node.Identity.{includes}
use plug_node.Values.Number.{Number, fraction, nan, whole, floor}
use plug_node.Values.Json.{Json, num, str, Fields, end, field, get}
use plug_node.Mcp.Types.{Capability, sql_execution, a_string, ParamSchema}
use plug_node.Mcp.Governance.{
  is_active_filter, has_active_filter, limit_value, resolve_effective_max_rows, filter_names,
  enforce_governance, accepted, lacks_filter, over_limit, masked_set, mask_row, mask_rows,
  mask_sensitive_columns,
}
use plug_node.Mcp.Governance.Limits.{resolve_effective_max_rows_bounds, enforce_governance-limit}
use plug_node.Mcp.Governance.Masking.{
  is_masked, columns_of, MasksAll, mask_sensitive_columns-MasksAll,
}

governance_code : Unit {0}
unfolding includes get is_active_filter has_active_filter limit_value resolve_effective_max_rows
    filter_names enforce_governance masked_set mask_row mask_rows mask_sensitive_columns
governance_code = tt

abbrev same : String → String
same t = t

abbrev not_number : Json → Number
not_number v = nan

abbrev text_param : ParamSchema
text_param = record {
  type = a_string;
  required = true;
  default = none;
  maximum = none;
  minimum = none;
}

abbrev customers : Capability
customers = record {
  name = "customers";
  parameters = ("city", text_param) ∷ ("limit", text_param) ∷ [];
  governance = record {
    require_at_least_one_filter = true;
    filter_param_names = none;
    max_rows = 100;
    masked_columns = some (" cpf " ∷ []);
  };
  execution = sql_execution "select" 60;
}

abbrev city : Fields → Fields
city rest = field "city" (str "x") rest

abbrev limited : ℕ → Fields
limited n = city (field "limit" (num (whole n)) end)

accepts_limit : enforce_governance same not_number customers (limited 100) ≡ accepted
unfolding governance_code
accepts_limit = refl

refuses_limit : enforce_governance same not_number customers (limited 101) ≡ over_limit
unfolding governance_code
refuses_limit = refl

refuses_no_filter :
    enforce_governance same not_number customers (field "limit" (num (whole 5)) end) ≡ lacks_filter
unfolding governance_code
refuses_no_filter = refl

reads_rows : resolve_effective_max_rows not_number customers (limited 7) ≡ 7
unfolding governance_code
reads_rows = refl

abbrev row : Fields
row = field "cpf" (str "123") (field "name" (str "n") end)

hides_column :
    mask_sensitive_columns same same (row ∷ []) (some ("cpf" ∷ []))
    ≡ field "cpf" (str "[redacted]") (field "name" (str "n") end) ∷ []
unfolding governance_code
hides_column = refl

limit_read : limit_value not_number (limited 80) ≡ some (fraction 80 0)
unfolding governance_code
limit_read = refl

limit_accepted : enforce_governance same not_number customers (limited 80) ≡ accepted
unfolding governance_code
limit_accepted = refl

resolve_effective_max_rows_bounds_example :
    (1 ≤ resolve_effective_max_rows not_number customers (limited 80))
    × (resolve_effective_max_rows not_number customers (limited 80) ≤ 100)
    × (resolve_effective_max_rows not_number customers (limited 80) ≤ 60)
resolve_effective_max_rows_bounds_example =
    resolve_effective_max_rows_bounds not_number customers (limited 80) (omega arith) (omega arith)

enforce_governance-limit_example :
    resolve_effective_max_rows not_number customers (limited 80) ≡ max 1 (min 60 (floor 80 0))
enforce_governance-limit_example =
    enforce_governance-limit same not_number customers (limited 80) 80 0 limit_accepted limit_read
      (omega arith)

mask_sensitive_columns-MasksAll_example :
    MasksAll
      (is_masked same same (columns_of (some ("cpf" ∷ []))))
      (row ∷ [])
      (mask_sensitive_columns same same (row ∷ []) (some ("cpf" ∷ [])))
mask_sensitive_columns-MasksAll_example =
    mask_sensitive_columns-MasksAll same same (row ∷ []) (some ("cpf" ∷ []))
