-- ===== src/Items.antt =====
-- n8n/plugInputItemParallelism.ts: how many input items of an SQL node run at once. The parameters of
-- an item are a record; `is_read_only` is isLikelyReadOnlySql, and `Parsed` what the parsing of a
-- parameter's JSON ends in.
pub mod Safe
mod Tests
use Prim.Native.String.{String}
use text.Mathlib.Text.{◌==◌ as str_eq}
use plug_node.Base.{
  ℕ, max, min, Bool, true, false, not, ◌&&◌, ◌||◌, Option, none, some, List, [], ◌∷◌, if◌then◌else◌,
  ltb, leb, length, every, is_empty,
}
use plug_node.Identity.{includes}
use plug_node.Values.Number.{Number, fraction, floor}
use plug_node.Values.Json.{Json, bool, num, str, arr, obj, Items, nil, cons, Fields, get, member}

pub data Parsed (A : Type 0) : Type 0 where
  parse_throws : Parsed A
  parsed : Option A → Parsed A

pub record Item : Type 0 where
  pub operation : String
  pub input_mode : String
  pub sql : Option Json
  pub batch_commands : Parsed (List Json)
  pub advanced_command : Parsed Fields
  pub collection : String → Fields

pub data Answer : Type 0 where
  throws : Answer
  answers : Bool → Answer

abbrev pub plug_max_parallel_input_items : ℕ
plug_max_parallel_input_items = 8

abbrev pub socket_rest_agent_max_inflight : ℕ
socket_rest_agent_max_inflight = 8

abbrev pub plug_max_parallel_read_only_batch_items : ℕ
plug_max_parallel_read_only_batch_items = 8

abbrev pub positive_trunc : Number → Option ℕ
positive_trunc (fraction n d) = if ltb 0 n then some (floor n d) else none
positive_trunc _ = none

abbrev pub value_or : ℕ → Option ℕ → ℕ
value_or fallback none = fallback
value_or fallback (some n) = n

-- `readParallelInputItemsCeiling`, of the environment's value; `to_number` is `Number`.
unfoldable pub read_ceiling : (to_number : String → Number) → Option String → ℕ
read_ceiling to_number none = plug_max_parallel_input_items
read_ceiling to_number (some t) =
    if str_eq t ""
    then plug_max_parallel_input_items
    else value_or plug_max_parallel_input_items (positive_trunc (to_number t))

-- `capInputItemConcurrency`, of a value that is truncated.
unfoldable pub cap_input_item_concurrency : (ceiling value item_count : ℕ) → ℕ
cap_input_item_concurrency ceiling value item_count = max 1 (
    min value (
      min item_count
        (min ceiling (min socket_rest_agent_max_inflight plug_max_parallel_read_only_batch_items))))

unfoldable pub resolve_max_parallel_input_items :
    (ceiling : ℕ) (allow_parallel : Bool) (explicit : Option ℕ) (hints_enabled : Bool)
    (item_count : ℕ)
    → ℕ
resolve_max_parallel_input_items ceiling allow_parallel explicit hints_enabled item_count =
    if not allow_parallel || leb item_count 1 then 1 else elim explicit [
      | some value ↦ cap_input_item_concurrency ceiling value item_count
      | none ↦
          if not hints_enabled then 1 else cap_input_item_concurrency ceiling ceiling item_count
    ]

abbrev pub is_read_only_text : (is_read_only : String → Bool) → Option Json → Bool
is_read_only_text is_read_only (some (str t)) = is_read_only t
is_read_only_text is_read_only _ = false

abbrev pub is_true : Option Json → Bool
is_true (some (bool true)) = true
is_true _ = false

-- The test of each command of a batch, of which there is one at least.
unfoldable pub are_read_only : (is_read_only : String → Bool) → List Json → Bool
are_read_only is_read_only commands =
    not (is_empty commands)
    && every (λ c. is_read_only_text is_read_only (member "sql" (some c))) commands

abbrev pub to_list : Items → List Json
to_list nil = []
to_list (cons v vs) = v ∷ to_list vs

abbrev pub commands_of : Option Json → List Json
commands_of (some (arr vs)) = to_list vs
commands_of _ = []

-- `isGuidedExecuteBatchItemReadOnly`
unfoldable pub is_guided_batch_read_only : (is_read_only : String → Bool) → Item → Answer
is_guided_batch_read_only is_read_only item =
    if is_true (get "transaction" (item.collection "batchOptions"))
    then answers false
    else elim item.batch_commands [
      | parse_throws ↦ throws
      | parsed none ↦ answers false
      | parsed (some commands) ↦ answers (are_read_only is_read_only commands)
    ]

-- The two ends of `isAdvancedSqlItemReadOnly`.
abbrev pub advanced_sql : (is_read_only : String → Bool) → Fields → Bool
advanced_sql is_read_only fs = is_read_only_text is_read_only (member "sql" (get "params" fs))

abbrev pub advanced_batch : (is_read_only : String → Bool) → Fields → Bool
advanced_batch is_read_only fs =
    not (is_true (member "transaction" (member "options" (get "params" fs))))
    && are_read_only is_read_only (commands_of (member "commands" (get "params" fs)))

unfoldable pub is_advanced_read_only : (Fields → Bool) → Parsed Fields → Answer
is_advanced_read_only test parse_throws = throws
is_advanced_read_only test (parsed none) = answers false
is_advanced_read_only test (parsed (some fs)) = answers (test fs)

abbrev pub inspections : List String
inspections = "validateContext" ∷ "discoverRpc" ∷ "getAgentProfile" ∷ "getClientTokenPolicy" ∷ []

-- `isSqlInputItemReadOnly`
unfoldable pub is_sql_input_item_read_only : (is_read_only : String → Bool) → Item → Answer
is_sql_input_item_read_only is_read_only item =
    if includes item.operation inspections
    then answers true
    else if str_eq item.operation "executeSql"
    then (if str_eq item.input_mode "advanced"
        then is_advanced_read_only (advanced_sql is_read_only) item.advanced_command
        else answers (is_read_only_text is_read_only item.sql))
    else if str_eq item.operation "executeBatch"
    then (if str_eq item.input_mode "advanced"
        then is_advanced_read_only (advanced_batch is_read_only) item.advanced_command
        else is_guided_batch_read_only is_read_only item)
    else answers false

abbrev pub is_yes : Answer → Bool
is_yes (answers b) = b
is_yes throws = false

-- `isSqlInputItemParallelismSafe`; without input there is one empty item.
unfoldable pub is_sql_input_item_parallelism_safe :
    (is_read_only : String → Bool) → List Item → Bool
is_sql_input_item_parallelism_safe is_read_only items =
    ltb 1 (length items) && every (λ i. is_yes (is_sql_input_item_read_only is_read_only i)) items

-- `sqlOptionsCollectionForOperation`
unfoldable pub sql_options_collection : String → Option String
sql_options_collection operation =
    if str_eq operation "executeSql"
    then some "sqlOptions"
    else if str_eq operation "executeBatch"
    then some "batchOptions"
    else if str_eq operation "bulkInsertSql"
    then some "bulkInsertOptions"
    else if str_eq operation "cancelSql"
    then some "cancelOptions"
    else if str_eq operation "discoverRpc"
    then some "discoverOptions"
    else if str_eq operation "validateContext"
    then some "validateContextOptions"
    else if str_eq operation "getAgentProfile" || str_eq operation "getClientTokenPolicy"
    then some "profileOptions"
    else none

abbrev pub option_of : Item → String → Option Json
option_of item key = elim (sql_options_collection item.operation) [
  | none ↦ none
  | some name ↦ get key (item.collection name)
]

abbrev pub explicit_value : Option Json → Option ℕ
explicit_value (some (num x)) = positive_trunc x
explicit_value _ = none

abbrev pub boolean_or : Bool → Option Json → Bool
boolean_or fallback (some (bool b)) = b
boolean_or fallback _ = fallback

-- `resolvePlugSqlInputItemParallelism`
unfoldable pub resolve_parallelism : (is_read_only : String → Bool) (ceiling : ℕ) → List Item → ℕ
resolve_parallelism is_read_only ceiling [] = 1
resolve_parallelism is_read_only ceiling (item ∷ items) =
    let safe = is_sql_input_item_parallelism_safe is_read_only (item ∷ items) in
    if not safe
    then 1
    else resolve_max_parallel_input_items ceiling safe
        (explicit_value (option_of item "maxParallelInputItems"))
        (boolean_or true (option_of item "autoPerformanceHints")) (length (item ∷ items))
