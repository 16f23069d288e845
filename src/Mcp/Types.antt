-- ===== src/Mcp/Types.antt =====
-- mcp/contracts.ts: capabilities, with what their use is checked by.
use Prim.Native.String.{String}
use plug_node.Base.{ℕ, Bool, Option, List}
use plug_node.Values.Number.{Number}
use plug_node.Values.Json.{Json, Fields}

pub data ParamType : Type 0 where
  a_string a_number a_boolean an_object : ParamType

-- The descriptions for people are left out.
pub record ParamSchema : Type 0 where
  pub type : ParamType
  pub required : Bool
  pub default : Option Json
  pub maximum : Option Number
  pub minimum : Option Number

-- An object from names to schemas: the names are distinct, in their order.
abbrev pub Schemas : Type 0
Schemas = List (String × ParamSchema)

pub record GovernanceConfig : Type 0 where
  pub require_at_least_one_filter : Bool
  pub filter_param_names : Option (List String)
  pub max_rows : ℕ
  pub masked_columns : Option (List String)

pub data Execution : Type 0 where
  sql_execution : (sql : String) → (max_rows : ℕ) → Execution
  tools_execution : (operation : String) → (static_params : Option Fields) → Execution

pub record Capability : Type 0 where
  pub name : String
  pub parameters : Schemas
  pub governance : GovernanceConfig
  pub execution : Execution
