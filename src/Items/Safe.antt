-- ===== src/Items/Safe.antt =====
-- n8n/plugInputItemParallelism.ts: items run at once only where each of them only reads.
use Prim.Native.String.{String}
use text.Mathlib.Text.{◌==◌ as str_eq}
use plug_node.Base.{◌≡◌, Bool, true, false, some, List}
use plug_node.Identity.{includes}
use plug_node.Values.Json.{Json, Fields, get}
use plug_node.Items.{
  parsed, Item, is_read_only_text, is_true, are_read_only, advanced_sql, advanced_batch,
  inspections,
}

-- An item of an operation, in the advanced mode or not.
abbrev pub Runs : Item → String → Bool → Type 0
Runs item operation advanced =
    (str_eq item.operation operation ≡ true) × (str_eq item.input_mode "advanced" ≡ advanced)

-- The ways in which an item only reads.
pub data OnlyReads (is_read_only : String → Bool) (item : Item) : Type 0 where
  inspects : includes item.operation inspections ≡ true → OnlyReads is_read_only item
  selects :
      Runs item "executeSql" false
      → is_read_only_text is_read_only item.sql ≡ true
      → OnlyReads is_read_only item
  raw_selects :
      (command : Fields)
      → Runs item "executeSql" true
      → item.advanced_command ≡ parsed (some command)
      → advanced_sql is_read_only command ≡ true
      → OnlyReads is_read_only item
  selects_all :
      (commands : List Json)
      → Runs item "executeBatch" false
      → item.batch_commands ≡ parsed (some commands)
      → is_true (get "transaction" (item.collection "batchOptions")) ≡ false
      → are_read_only is_read_only commands ≡ true
      → OnlyReads is_read_only item
  raw_selects_all :
      (command : Fields)
      → Runs item "executeBatch" true
      → item.advanced_command ≡ parsed (some command)
      → advanced_batch is_read_only command ≡ true
      → OnlyReads is_read_only item
