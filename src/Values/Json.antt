-- ===== src/Values/Json.antt =====
-- Parsed JSON, and the tests that the program makes on a value of unknown shape (utils/json.ts).
use Prim.Native.String.{String}
use text.Mathlib.Text.{◌==◌ as str_eq}
use plug_node.Base.{Bool, true, false, Option, none, some, if◌then◌else◌}
use plug_node.Values.Number.{Number}

mutual
  pub data Json : Type 0 where
    null : Json
    bool : Bool → Json
    num : Number → Json
    str : String → Json
    arr : Items → Json
    obj : Fields → Json

  pub data Items : Type 0 where
    nil : Items
    cons : Json → Items → Items

  pub data Fields : Type 0 where
    end : Fields
    field : String → Json → Fields → Fields

-- `record[key]`, undefined where the key is missing.
unfoldable pub get : String → Fields → Option Json
get k end = none
get k (field j v fs) = if str_eq j k then some v else get k fs

abbrev pub record_of : Json → Option Fields
record_of (obj fs) = some fs
record_of _ = none

-- `isRecord(value)`
abbrev pub is_record : Json → Bool
is_record (obj fs) = true
is_record _ = false

-- A member of a value that may be no record, or not be there.
unfoldable pub member : String → Option Json → Option Json
member k (some (obj fs)) = get k fs
member k _ = none
