-- ===== src/Mcp/Server.antt =====
-- n8n/mcpServerExecution.ts: the calls of tools. The parameters of the node, read and parsed, are the
-- call; `executeCapability` is what a call ends in. Texts, times and the audit are left out.
use Prim.Native.String.{String}
use plug_node.Base.{ℕ, ◌+◌, max, ◌&&◌, Option, none, some, List, [], ◌∷◌, if◌then◌else◌, ltb}
use plug_node.Values.Json.{Json, Fields, end, field}
use plug_node.Values.Number.{Number}
use plug_node.Mcp.Types.{Capability}
use plug_node.Mcp.Tokens.{Letters}
use plug_node.Mcp.Params.{Language, ParamError, Result, ok, err, Coerced, validate_params}
use plug_node.Mcp.Governance.{GovernanceResult, accepted, enforce_governance}
use plug_node.Mcp.Registry.{
  Registry, is_capability_forbidden_for_agent, is_capability_blocked_by_name_list,
  lookup_capability, build_registry,
}

pub record Setting : Type 0 where
  pub letters : Letters
  pub language : Language
  pub to_number : Json → Number

-- What the node's parameters are for one input item.
pub record Call : Type 0 where
  pub definitions : List Capability
  pub name : String
  pub params : Fields
  pub forbidden_names : List String
  pub max_tool_calls_per_turn : ℕ
  pub tool_call_count : ℕ

pub data Outcome : Type 0 where
  throws_duplicate over_budget not_registered is_blocked is_forbidden : Outcome
  refuses_params : ParamError → Outcome
  refuses_governance : GovernanceResult → Outcome
  executes : Capability → Coerced → Outcome

-- The coerced parameters as an object.
abbrev pub fields_of : Coerced → Fields
fields_of [] = end
fields_of ((name, v) ∷ rest) = field name v (fields_of rest)

abbrev pub governed : Capability → Coerced → GovernanceResult → Outcome
governed c coerced accepted = executes c coerced
governed c coerced r = refuses_governance r

abbrev pub validated : Setting → Capability → Result Coerced → Outcome
validated g c (err e) = refuses_params e
validated g c (ok coerced) =
    governed c coerced (enforce_governance g.letters.trim g.to_number c (fields_of coerced))

abbrev pub found : Setting → Call → Option Capability → Outcome
found g call none = not_registered
found g call (some c) =
    if is_capability_blocked_by_name_list g.letters c.name call.forbidden_names
    then is_blocked
    else if is_capability_forbidden_for_agent g.letters c
    then is_forbidden
    else validated g c (validate_params g.language c.parameters call.params)

-- `executeCallItem`
unfoldable pub execute_call_item : Setting → Call → Registry → ℕ → Outcome
execute_call_item g call registry execution_call_count =
    if ltb 0 call.max_tool_calls_per_turn
      && ltb call.max_tool_calls_per_turn (max call.tool_call_count execution_call_count)
    then over_budget
    else found g call (lookup_capability registry call.name)

abbrev pub registered : Setting → Call → ℕ → Option Registry → Outcome
registered g call count none = throws_duplicate
registered g call count (some registry) = execute_call_item g call registry count

-- The loop of `executeMcpServerNode` for calls, with the count of the calls so far, where the node
-- continues on an error.
unfoldable pub execute_calls : Setting → ℕ → List Call → List Outcome
execute_calls g count [] = []
execute_calls g count (call ∷ calls) =
    let now = max (count + 1) call.tool_call_count in
    registered g call now (build_registry call.definitions) ∷ execute_calls g now calls
