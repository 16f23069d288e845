-- ===== src/Stream/Buffers.antt =====
-- streamCommandSessionCommon.ts: the limits of what the client buffers of a stream, and the merging
-- of a chunk's rows into the first answer.
pub mod Merge
pub mod Joined
mod Tests
use Prim.Native.String.{String}
use text.Mathlib.Text.{◌==◌ as str_eq}
use plug_node.Base.{
  ℕ, suc, ◌+◌, ◌*◌, ◌≤◌, Bool, true, false, not, ◌&&◌, ◌||◌, Option, none, some, leb, if◌then◌else◌,
}
use plug_node.Values.Number.{
  Number, nan, infinity, neg_infinity, fraction, negative, whole, is_positive,
}
use plug_node.Values.Json.{
  Json, null, bool, num, str, arr, obj, Items, nil, cons, Fields, end, field, get,
}

-- `SocketBufferLimits`, as they are given, and as they are resolved to.
pub record Limits (A : Type 0) : Type 0 where
  pub max_buffered_chunk_items : A
  pub max_buffered_rows : A
  pub max_buffered_bytes : A

-- `SocketBufferState`
pub record BufferState : Type 0 where
  pub buffered_bytes : ℕ
  pub buffered_rows : ℕ
  pub chunk_count : ℕ

abbrev default_to : ℕ → Option Number → Number
default_to d none = whole d
default_to d (some x) = x

-- The limits with their defaults, or none where one is no finite number above 0.
unfoldable pub resolve_socket_buffer_limits : Limits (Option Number) → Option (Limits Number)
resolve_socket_buffer_limits input =
    let items = default_to 512 input.max_buffered_chunk_items in
    let rows = default_to 50000 input.max_buffered_rows in
    let bytes = default_to (8 * 1024 * 1024) input.max_buffered_bytes in
    if is_positive items && (is_positive rows && is_positive bytes)
    then some (record {
      max_buffered_chunk_items = items;
      max_buffered_rows = rows;
      max_buffered_bytes = bytes;
    })
    else none

-- `count <= limit`, for a limit that is not negative.
unfoldable pub within : ℕ → Number → Bool
within count (fraction n d) = leb (count * suc d) n
within count infinity = true
within count _ = false

-- Whether `assertSocketBufferWithinLimits` lets the buffer pass.
unfoldable pub is_within_limits : Limits Number → BufferState → Bool
is_within_limits limits state =
    within state.buffered_bytes limits.max_buffered_bytes
    && (within state.buffered_rows limits.max_buffered_rows
        && within state.chunk_count limits.max_buffered_chunk_items)

unfoldable pub count_items : Items → ℕ
count_items nil = 0
count_items (cons v vs) = suc (count_items vs)

unfoldable pub count_rows : Option Json → ℕ
count_rows (some (arr vs)) = count_items vs
count_rows _ = 0

-- `payload.result` where both are records.
abbrev pub result_of : Json → Option Fields
result_of (obj fs) = elim (get "result" fs) [ some (obj rs) ↦ some rs | _ ↦ none ]
result_of _ = none

unfoldable pub count_result_rows : Json → ℕ
count_result_rows payload = elim (result_of payload) [
  | none ↦ 0
  | some rs ↦ count_rows (get "rows" rs)
]

-- A member with another value, in its place.
unfoldable pub put : String → Json → Fields → Fields
put k v end = end
put k v (field j w fs) =
    let rest = put k v fs in if str_eq j k then field j v fs else field j w rest

unfoldable pub without : String → Fields → Fields
without k end = end
without k (field j w fs) = let rest = without k fs in if str_eq j k then rest else field j w rest

unfoldable pub append_items : Items → Items → Items
append_items nil ws = ws
append_items (cons v vs) ws = cons v (append_items vs ws)

abbrev pub rows_of : Option Json → Option Items
rows_of (some (arr vs)) = some vs
rows_of _ = none

-- What `tryMergeChunkRowsIntoRawRpcResponse` makes of the rows of an answer, undefined where there
-- is nothing to merge.
unfoldable pub merge_rows : Option Items → Option Items → Option Items
merge_rows (some rows) (some (cons v vs)) = some (append_items rows (cons v vs))
merge_rows rows chunk = none

unfoldable pub merge_into : Fields → Fields → Option Items → Option Json
merge_into fs rs none = none
merge_into fs rs (some rows) = some (obj (put "result" (obj (put "rows" (arr rows) rs)) fs))

unfoldable pub try_merge_chunk_rows : Json → Fields → Option Json
try_merge_chunk_rows (obj fs) chunk = elim (result_of (obj fs)) [
  | none ↦ none
  | some rs ↦ merge_into fs rs (merge_rows (rows_of (get "rows" rs)) (rows_of (get "rows" chunk)))
]
try_merge_chunk_rows response chunk = none

-- The answer without its `stream_id`, where it is a success with rows.
unfoldable pub remove_stream_marker : Json → Json
remove_stream_marker (obj fs) = elim (result_of (obj fs)) [
  | none ↦ obj fs
  | some rs ↦ elim (rows_of (get "rows" rs)) [
    | none ↦ obj fs
    | some rows ↦ obj (put "result" (obj (without "stream_id" rs)) fs)
  ]
]
remove_stream_marker response = response

-- The rows of an answer, where it is a success with rows.
unfoldable pub result_rows : Json → Option Items
result_rows response = elim (result_of response) [ none ↦ none | some rs ↦ rows_of (get "rows" rs) ]
