-- ===== src/Mcp/Tests.antt =====
-- Runs of the MCP server, and the theorems at one of them.
use Prim.Native.Char.{code}
use Prim.Native.String.{String}
use plug_node.Base.{ℕ, ◌≡◌, ◌≤◌, ◌==◌, refl, true, false, none, [], ◌∷◌, arith}
use plug_node.Identity.{includes}
use plug_node.Values.Number.{nan, whole}
use plug_node.Values.Json.{num, end, field, get}
use plug_node.Mcp.Types.{Capability, Execution, sql_execution, tools_execution, a_number}
use plug_node.Mcp.Tokens.{
  Letters, split_case, squash, strip_start, strip_end, normalize_token, starts_with, ends_with,
  contains, matches_token,
}
use plug_node.Mcp.Params.{
  less, coerce_string, coerce_number, coerce_boolean, coerce_object, check_number, check_string,
  coerce_typed, absent, coerce_param_value, coerce_all, is_in, unknown_name, validate_params,
  Coerced,
}
use plug_node.Mcp.Governance.{
  is_active_filter, has_active_filter, limit_value, filter_names, enforce_governance, over_limit,
}
use plug_node.Mcp.Registry.{
  matches_some, matches_forbidden_token, is_capability_forbidden_for_agent,
  is_capability_blocked_by_name_list, lookup_capability, register_all, build_registry,
  list_capabilities,
}
use plug_node.Mcp.Server.{
  Setting, Call, executes, over_budget, not_registered, is_blocked, is_forbidden,
  refuses_governance, execute_call_item, registered, execute_calls,
}
use plug_node.Mcp.Calls.{Allowed, executions, registered-Allowed, execute_calls_budget}

server_code : Unit {0}
unfolding includes get split_case squash strip_start strip_end normalize_token starts_with ends_with
    contains matches_token less coerce_string coerce_number coerce_boolean coerce_object
    check_number check_string coerce_typed absent coerce_param_value coerce_all is_in unknown_name
    validate_params is_active_filter has_active_filter limit_value filter_names enforce_governance
    matches_some matches_forbidden_token is_capability_forbidden_for_agent
    is_capability_blocked_by_name_list lookup_capability register_all build_registry
    list_capabilities execute_call_item execute_calls
server_code = tt

-- A language in which texts are in lower case, but for the names of the tests.
abbrev lower : String → String
lower t = t

abbrev letters : Letters
letters = record { trim = λ t. t; to_lower = lower; is_space = λ c. code c == 32 }

token_of_words : normalize_token letters "client - access." ≡ "client_access"
unfolding server_code
token_of_words = refl

token_split : split_case "clientAccess2X" ≡ "client_Access2_X"
unfolding server_code
token_split = refl

token_inside : matches_token "list_client_access_all" "client_access" ≡ true
unfolding server_code
token_inside = refl

token_outside : matches_token "clients_access" "client_access" ≡ false
unfolding server_code
token_outside = refl

abbrev setting : Setting
setting = record {
  letters = letters;
  language = record {
    trim = λ t. t;
    show = λ x. "0";
    read_number = λ t. nan;
    parse = λ t. none;
    inherited = λ t. none;
  };
  to_number = λ v. nan;
}

abbrev capability : String → Execution → Capability
capability name execution = record {
  name = name;
  parameters =
      (
        "limit",
        record {
          type = a_number;
          required = false;
          default = none;
          maximum = none;
          minimum = none;
        },
      )
      ∷ [];
  governance = record {
    require_at_least_one_filter = false;
    filter_param_names = none;
    max_rows = 100;
    masked_columns = none;
  };
  execution = execution;
}

abbrev customers : Capability
customers = capability "customers" (sql_execution "select" 50)

abbrev grants : Capability
grants = capability "client_Access" (tools_execution "x" none)

abbrev call : String → ℕ → Call
call name limit = record {
  definitions = customers ∷ grants ∷ [];
  name = name;
  params = field "limit" (num (whole limit)) end;
  forbidden_names = "orders" ∷ [];
  max_tool_calls_per_turn = 3;
  tool_call_count = 0;
}

abbrev coerced : Coerced
coerced = ("limit", num (whole 5)) ∷ []

runs_calls :
    execute_calls setting 0
      (call "customers" 5 ∷ call "x" 5 ∷ call "customers" 101 ∷ call "customers" 5 ∷ [])
    ≡ executes customers coerced ∷ not_registered ∷ refuses_governance over_limit ∷ over_budget ∷ []
unfolding server_code
runs_calls = refl

refuses_blocked :
    registered setting
      (record (call "customers" 5) { forbidden_names = "customers" ∷ [] })
      1
      (build_registry (customers ∷ []))
    ≡ is_blocked
unfolding server_code
refuses_blocked = refl

refuses_forbidden :
    registered setting (call "client_Access" 5) 1 (build_registry (customers ∷ grants ∷ []))
    ≡ is_forbidden
unfolding server_code
refuses_forbidden = refl

refuses_duplicate : build_registry (customers ∷ customers ∷ []) ≡ none
unfolding server_code
refuses_duplicate = refl

lists_names : list_capabilities letters (customers ∷ grants ∷ []) ("grants" ∷ []) ≡ "customers" ∷ []
unfolding server_code
lists_names = refl

executed :
    registered setting (call "customers" 5) 1 (build_registry (customers ∷ grants ∷ []))
    ≡ executes customers coerced
unfolding server_code
executed = refl

registered-Allowed_example : Allowed setting (call "customers" 5) 1 customers coerced
registered-Allowed_example =
    registered-Allowed setting (call "customers" 5) 1 customers coerced executed

execute_calls_budget_example :
    executions (execute_calls setting 0 (call "customers" 5 ∷ call "x" 5 ∷ [])) ≤ 3
execute_calls_budget_example =
    execute_calls_budget setting 3 (call "customers" 5 ∷ call "x" 5 ∷ []) (omega arith)
      (refl, (refl, tt))
