-- ===== src/Mcp/Calls.antt =====
-- n8n/mcpServerExecution.ts: which calls reach the execution of a capability.
use Prim.Native.String.{String}
use text.Mathlib.Text.{◌==◌ as str_eq}
use text.Mathlib.TextEquality.{eq_iff}
use plug_node.Base.{
  ℕ, suc, ◌+◌, ◌-◌, ◌≤◌, ◌<◌, ◌≡◌, refl, sym, ◌∙◌, ap, subst, inl, inr, max, Bool, true, false,
  ◌&&◌, Option, none, some, List, [], ◌∷◌, ◌++◌, ltb, arith, of_if, Bool-cases, append_assoc,
  append-nil, get_elem?, All, count_if,
}
use plug_node.Mcp.Types.{Capability}
use plug_node.Mcp.Params.{Result, ok, err, Coerced, validate_params}
use plug_node.Mcp.Params.Sound.{Answers, AreKnown, validate_params-Answers}
use plug_node.Mcp.Governance.{
  GovernanceResult, accepted, lacks_filter, over_limit, enforce_governance,
}
use plug_node.Mcp.Registry.{
  Registry, is_capability_forbidden_for_agent, is_capability_blocked_by_name_list,
  lookup_capability, is_some, register_all, build_registry,
}
use plug_node.Mcp.Server.{
  Setting, Call, Outcome, throws_duplicate, over_budget, not_registered, is_blocked, is_forbidden,
  refuses_params, refuses_governance, executes, fields_of, governed, validated, found,
  execute_call_item, registered, execute_calls,
}

abbrev pub is_execution : Outcome → Bool
is_execution (executes c coerced) = true
is_execution _ = false

-- What is known of a capability that a call executes.
pub record Allowed (g : Setting) (call : Call) (count : ℕ) (c : Capability) (coerced : Coerced)
    : Type 0 where
  pub place : ℕ
  pub defined : get_elem? call.definitions place ≡ some c
  pub named : c.name ≡ call.name
  pub unblocked : is_capability_blocked_by_name_list g.letters c.name call.forbidden_names ≡ false
  pub permitted : is_capability_forbidden_for_agent g.letters c ≡ false
  pub answered : Answers g.language c.parameters coerced
  pub known : AreKnown g.language c.parameters call.params
  pub governed : enforce_governance g.letters.trim g.to_number c (fields_of coerced) ≡ accepted
  pub in_budget :
      0 < call.max_tool_calls_per_turn
      → max call.tool_call_count count ≤ call.max_tool_calls_per_turn

absurd_none : {A P : Type 0} {a : A} → none ≡ some a → P
absurd_none h = cc

register_all-defined :
    (ds : List Capability) (registry r : Registry)
    → register_all ds registry ≡ some r
    → r ≡ registry ++ ds
unfolding register_all
register_all-defined [] registry r h = rw append-nil (ground (arith, h))
register_all-defined (d ∷ ds) registry r h =
    of_if (is_some (lookup_capability registry d.name)) none (register_all ds (registry ++ d ∷ []))
      h (λ _ e. absurd_none e)
      λ _ e. register_all-defined ds (registry ++ d ∷ []) r e ∙ append_assoc registry (d ∷ []) ds

lookup_capability-found :
    (registry : Registry) (name : String) (c : Capability)
    → lookup_capability registry name ≡ some c
    → (i : ℕ) × (get_elem? registry i ≡ some c) × (c.name ≡ name)
unfolding lookup_capability
lookup_capability-found [] name c h = cc
lookup_capability-found (d ∷ ds) name c h =
    of_if (str_eq d.name name) (some d) (lookup_capability ds name) h
      (λ same e. (0, e, ground (arith, eq_iff d.name name, same, e)))
      λ _ e. let (i, at, named) = lookup_capability-found ds name c e in (suc i, at, named)

governed-executes :
    (c d : Capability) (coerced out : Coerced) (r : GovernanceResult)
    → governed c coerced r ≡ executes d out
    → (c ≡ d) × (coerced ≡ out) × (r ≡ accepted)
governed-executes c d coerced out accepted h = (ground (arith, h), ground (arith, h), refl)
governed-executes c d coerced out lacks_filter h = cc
governed-executes c d coerced out over_limit h = cc

-- A validation that is followed by an execution.
validated-executes :
    (g : Setting) (c d : Capability) (out : Coerced) (r : Result Coerced)
    → validated g c r ≡ executes d out
    → (c ≡ d)
      × (r ≡ ok out)
      × (enforce_governance g.letters.trim g.to_number c (fields_of out) ≡ accepted)
validated-executes g c d out (err e) h = cc
validated-executes g c d out (ok coerced) h =
    let (same, kept, taken) =
      governed-executes c d coerced out
        (enforce_governance g.letters.trim g.to_number c (fields_of coerced)) h in
    (
      same,
      ap ok kept,
      subst (λ o. enforce_governance g.letters.trim g.to_number c (fields_of o) ≡ accepted) kept
          taken,
    )

absurd_blocked : {P : Type 0} {c : Capability} {out : Coerced} → is_blocked ≡ executes c out → P
absurd_blocked h = cc

absurd_forbidden : {P : Type 0} {c : Capability} {out : Coerced} → is_forbidden ≡ executes c out → P
absurd_forbidden h = cc

absurd_budget : {P : Type 0} {c : Capability} {out : Coerced} → over_budget ≡ executes c out → P
absurd_budget h = cc

-- Within the budget, if there is one.
InBudget : Call → ℕ → Type 0
InBudget call count =
    0 < call.max_tool_calls_per_turn → max call.tool_call_count count ≤ call.max_tool_calls_per_turn

within-InBudget :
    (call : Call) (count : ℕ)
    → (ltb 0 call.max_tool_calls_per_turn
        && ltb call.max_tool_calls_per_turn (max call.tool_call_count count))
      ≡ false
    → InBudget call count
unfolding InBudget
within-InBudget call count h = λ some_budget. ground (arith, h, some_budget)

found-Allowed :
    (g : Setting) (call : Call) (count : ℕ) (c : Capability) (out : Coerced) (o : Option Capability)
    → found g call o ≡ executes c out
    → lookup_capability call.definitions call.name ≡ o
    → InBudget call count
    → Allowed g call count c out
unfolding InBudget
found-Allowed g call count c out none h e b = cc
found-Allowed g call count c out (some d) h e b =
    of_if (is_capability_blocked_by_name_list g.letters d.name call.forbidden_names) is_blocked _ h
      (λ _ k. absurd_blocked k)
      λ unblocked k.
        of_if (is_capability_forbidden_for_agent g.letters d) is_forbidden _ k
          (λ _ m. absurd_forbidden m)
          λ permitted m.
            let (same, valid, taken) =
              validated-executes g d c out (validate_params g.language d.parameters call.params)
                m in
            let (i, at, named) = lookup_capability-found call.definitions call.name d e in
            let (answered, known) =
              validate_params-Answers g.language d.parameters call.params out valid in
            subst (λ x. Allowed g call count x out) same
              (record {
                place = i;
                defined = at;
                named = named;
                unblocked = unblocked;
                permitted = permitted;
                answered = answered;
                known = known;
                governed = taken;
                in_budget = b;
              })

-- A call reaches the execution of a capability only with one of the node's definitions, of the name
-- that the call gives, that the name list does not block and that is not forbidden to agents; with
-- parameters that answer its schemas, which the governance accepts; and within the budget of tool
-- calls, where there is one.
pub registered-Allowed :
    (g : Setting) (call : Call) (count : ℕ) (c : Capability) (out : Coerced)
    → registered g call count (build_registry call.definitions) ≡ executes c out
    → Allowed g call count c out
unfolding build_registry execute_call_item
registered-Allowed g call count c out h = by_registry (register_all call.definitions []) refl h
  where
    by_registry :
        (o : Option Registry)
        → register_all call.definitions [] ≡ o
        → registered g call count o ≡ executes c out
        → Allowed g call count c out
    by_registry none e h = cc
    by_registry (some r) e h =
        let defined = register_all-defined call.definitions [] r e in
        of_if
          (ltb 0 call.max_tool_calls_per_turn
            && ltb call.max_tool_calls_per_turn (max call.tool_call_count count))
          over_budget (found g call (lookup_capability r call.name)) h (λ _ k. absurd_budget k)
          λ within k.
            found-Allowed g call count c out (lookup_capability r call.name) k
              (ap (λ (x : Registry). lookup_capability x call.name) (sym defined))
              (within-InBudget call count within)

-- How many of the calls are executed.
abbrev pub executions : List Outcome → ℕ
executions = count_if is_execution

executes_of :
    (o : Outcome)
    → is_execution o ≡ true
    → (c : Capability) × (out : Coerced) × (o ≡ executes c out)
executes_of (executes c out) h = (c, out, refl)
executes_of throws_duplicate h = cc
executes_of over_budget h = cc
executes_of not_registered h = cc
executes_of is_blocked h = cc
executes_of is_forbidden h = cc
executes_of (refuses_params e) h = cc
executes_of (refuses_governance r) h = cc

is_execution-InBudget :
    (g : Setting) (call : Call) (count : ℕ)
    → is_execution (registered g call count (build_registry call.definitions)) ≡ true
    → 0 < call.max_tool_calls_per_turn
    → max call.tool_call_count count ≤ call.max_tool_calls_per_turn
is_execution-InBudget g call count h =
    let (c, out, e) = executes_of (registered g call count (build_registry call.definitions)) h in
    (registered-Allowed g call count c out e).in_budget

-- The number of executions of one run of the node, from a count on.
executions_within :
    (g : Setting) (most : ℕ) (calls : List Call) (count : ℕ)
    → 0 < most
    → All (λ call. call.max_tool_calls_per_turn ≡ most) calls
    → executions (execute_calls g count calls) ≤ most - count
unfolding execute_calls
executions_within g most [] count h each = omega arith
executions_within g most (call ∷ calls) count h (same, each) =
    let now = max (count + 1) call.tool_call_count in
    let rest = executions_within g most calls now h each in
    let o = registered g call now (build_registry call.definitions) in
    elim (Bool-cases (is_execution o)) [
      | inl executed ↦
          let within = is_execution-InBudget g call now executed in
          ground (arith, rest, executed, within)
      | inr refused ↦ ground (arith, rest, refused)
    ]

-- In a run of the node whose items all have the same budget of at least one call per turn, no more
-- calls than that are executed, whatever their counts and outcomes.
pub execute_calls_budget :
    (g : Setting) (most : ℕ) (calls : List Call)
    → 0 < most
    → All (λ call. call.max_tool_calls_per_turn ≡ most) calls
    → executions (execute_calls g 0 calls) ≤ most
execute_calls_budget g most calls h each = omega (arith, executions_within g most calls 0 h each)
