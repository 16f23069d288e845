-- ===== src/Mcp/Registry.antt =====
-- mcp/registry.ts and mcp/forbiddenCapabilities.ts: the capabilities that are registered, and those
-- that an agent must not use. A tool is listed by its name; its texts are left out.
use Prim.Native.String.{String}
use text.Mathlib.Text.{◌==◌ as str_eq}
use plug_node.Base.{
  Bool, true, false, not, ◌&&◌, ◌||◌, Option, none, some, List, [], ◌∷◌, ◌++◌, map, keep_if,
  if◌then◌else◌,
}
use plug_node.Mcp.Types.{Capability, sql_execution, tools_execution}
use plug_node.Mcp.Tokens.{Letters, normalize_token, matches_token}

abbrev pub forbidden_capability_resources : List String
forbidden_capability_resources = "clientAccess" ∷ "userAccess" ∷ []

unfoldable pub matches_some : Letters → String → List String → Bool
matches_some g normalized [] = false
matches_some g normalized (entry ∷ entries) =
    matches_token normalized (normalize_token g entry) || matches_some g normalized entries

-- `matchesForbiddenToken`
unfoldable pub matches_forbidden_token : Letters → String → Bool
matches_forbidden_token g value =
    let normalized = normalize_token g value in
    not (str_eq normalized "") && matches_some g normalized forbidden_capability_resources

-- `isCapabilityForbiddenForAgent`
unfoldable pub is_capability_forbidden_for_agent : Letters → Capability → Bool
is_capability_forbidden_for_agent g c = matches_forbidden_token g c.name || (elim c.execution [
  | sql_execution sql max_rows ↦ false
  | tools_execution operation static_params ↦ matches_forbidden_token g operation
])

-- `isCapabilityBlockedByNameList`
unfoldable pub is_capability_blocked_by_name_list : Letters → String → List String → Bool
is_capability_blocked_by_name_list g name [] = false
is_capability_blocked_by_name_list g name (forbidden ∷ names) =
    str_eq (normalize_token g forbidden) (normalize_token g name)
    || is_capability_blocked_by_name_list g name names

-- A `Map` from names to capabilities, in the order in which they were set.
abbrev pub Registry : Type 0
Registry = List Capability

-- `registry.get(name)`
unfoldable pub lookup_capability : Registry → String → Option Capability
lookup_capability [] name = none
lookup_capability (c ∷ cs) name =
    let later = lookup_capability cs name in if str_eq c.name name then some c else later

abbrev pub is_some : Option Capability → Bool
is_some none = false
is_some (some c) = true

-- The loop of `buildRegistry`; an error is `none`.
unfoldable pub register_all : List Capability → Registry → Option Registry
register_all [] registry = some registry
register_all (d ∷ ds) registry =
    let later = register_all ds (registry ++ d ∷ []) in
    if is_some (lookup_capability registry d.name) then none else later

-- `buildRegistry`
unfoldable pub build_registry : List Capability → Option Registry
build_registry definitions = register_all definitions []

-- `listCapabilities`, with the names of the tools.
unfoldable pub list_capabilities : Letters → Registry → List String → List String
list_capabilities g registry forbidden =
    map (λ c. c.name)
      (keep_if
        (λ c.
          not (is_capability_forbidden_for_agent g c)
          && not (is_capability_blocked_by_name_list g c.name forbidden))
        registry)
