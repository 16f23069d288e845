-- ===== src/Items/Tests.antt =====
-- Runs with several input items, and the theorem at one of them.
use Prim.Native.String.{String}
use text.Mathlib.Text.{◌==◌ as str_eq}
use plug_node.Base.{◌≡◌, refl, Bool, none, some, List, [], ◌∷◌}
use plug_node.Identity.{includes}
use plug_node.Values.Number.{whole, nan}
use plug_node.Values.Json.{num, str, arr, obj, nil, cons, end, field, get, member}
use plug_node.Items.{
  Item, parsed, parse_throws, read_ceiling, cap_input_item_concurrency,
  resolve_max_parallel_input_items, are_read_only, is_guided_batch_read_only, is_advanced_read_only,
  is_sql_input_item_read_only, is_sql_input_item_parallelism_safe, sql_options_collection,
  resolve_parallelism,
}

items_code : Unit {0}
unfolding includes get member read_ceiling cap_input_item_concurrency
    resolve_max_parallel_input_items are_read_only is_guided_batch_read_only is_advanced_read_only
    is_sql_input_item_read_only is_sql_input_item_parallelism_safe sql_options_collection
    resolve_parallelism
items_code = tt

abbrev reads : String → Bool
reads t = str_eq t "select 1"

abbrev item : String → String → Item
item operation sql = record {
  operation = operation;
  input_mode = "guided";
  sql = some (str sql);
  batch_commands = parse_throws;
  advanced_command = parsed none;
  collection = λ name. field "maxParallelInputItems" (num (whole 5)) end;
}

abbrev selecting : List Item
selecting = item "executeSql" "select 1" ∷ item "executeSql" "select 1" ∷ item "discoverRpc" "" ∷ []

runs_three : resolve_parallelism reads 8 selecting ≡ 3
unfolding items_code
runs_three = refl

runs_one : resolve_parallelism reads 8 (item "executeSql" "drop" ∷ selecting) ≡ 1
unfolding items_code
runs_one = refl

runs_failing : resolve_parallelism reads 8 (item "executeBatch" "" ∷ selecting) ≡ 1
unfolding items_code
runs_failing = refl

abbrev raw_batch : Item
raw_batch = record (item "executeBatch" "") {
  input_mode = "advanced";
  advanced_command = parsed (
      some (
        field "params"
          (obj (field "commands" (arr (cons (obj (field "sql" (str "select 1") end)) nil)) end))
          end));
}

runs_raw : resolve_parallelism reads 2 (raw_batch ∷ raw_batch ∷ raw_batch ∷ []) ≡ 2
unfolding items_code
runs_raw = refl

default_ceiling : read_ceiling (λ t. nan) (some "x") ≡ 8
unfolding items_code
default_ceiling = refl
