-- ===== src/Stream/Buffers/Tests.antt =====
-- Runs of the merging, and the theorems at them.
use plug_node.Base.{◌≡◌, refl, some, none, false}
use plug_node.Values.Number.{whole, fraction}
use plug_node.Values.Json.{str, arr, obj, Items, nil, cons, Fields, end, field, get}
use plug_node.Stream.Buffers.{
  resolve_socket_buffer_limits, within, is_within_limits, count_items, count_rows,
  count_result_rows, put, without, append_items, merge_rows, merge_into, try_merge_chunk_rows,
  remove_stream_marker, result_rows,
}
use plug_node.Stream.Buffers.Joined.{Merges, merge-Merges}

abbrev row : Items
row = cons (str "a") nil

abbrev result : Fields
result = field "rows" (arr row) (field "stream_id" (str "s1") end)

abbrev answer : Fields
answer = field "jsonrpc" (str "2.0") (field "result" (obj result) end)

abbrev chunk : Fields
chunk = field "rows" (arr (cons (str "b") (cons (str "c") nil))) end

buffers_code : Unit {0}
unfolding get resolve_socket_buffer_limits within is_within_limits count_items count_rows
    count_result_rows put without append_items merge_rows merge_into try_merge_chunk_rows
    remove_stream_marker result_rows
buffers_code = tt

result_found : get "result" answer ≡ some (obj result)
unfolding buffers_code
result_found = refl

rows_found : get "rows" result ≡ some (arr row)
unfolding buffers_code
rows_found = refl

chunk_found : get "rows" chunk ≡ some (arr (cons (str "b") (cons (str "c") nil)))
unfolding buffers_code
chunk_found = refl

answer_rows : count_result_rows (obj answer) ≡ 1
unfolding buffers_code
answer_rows = refl

no_limit_zero :
    resolve_socket_buffer_limits (record {
      max_buffered_chunk_items = some (whole 0);
      max_buffered_rows = none;
      max_buffered_bytes = none;
    })
    ≡ none
unfolding buffers_code
no_limit_zero = refl

rows_over :
    is_within_limits
      (record {
        max_buffered_chunk_items = whole 5;
        max_buffered_rows = fraction 5 1;
        max_buffered_bytes = whole 100;
      })
      (record { buffered_bytes = 10; buffered_rows = 3; chunk_count = 1 })
    ≡ false
unfolding buffers_code
rows_over = refl

merge-Merges_example :
    Merges "jsonrpc" "stream_id" (obj answer) chunk (try_merge_chunk_rows (obj answer) chunk)
merge-Merges_example = merge-Merges "jsonrpc" "stream_id" (obj answer) chunk refl refl
