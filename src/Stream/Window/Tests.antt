-- ===== src/Stream/Window/Tests.antt =====
-- Runs of the window policy, with the bounds at concrete values.
use plug_node.Base.{ℕ, ◌≤◌, ◌≡◌, refl, none, some}
use plug_node.Values.Number.{fraction, whole}
use plug_node.Values.Json.{Json, num, obj, end, field, get}
use plug_node.Stream.Window.{
  clamp_hint, clamp, clamp_number, ceiling, child, pick_positive_integer, source_hint, first_hint,
  nested_sources, extract_recommended, source_max, extract_max, resolve_adaptive,
  normalize_window_size,
}
use plug_node.Stream.Window.Bounds.{InRange, AtMost, resolve_adaptive_bounds}
use plug_node.Stream.Window.Places.{
  search_in, recommended_keys, recommended_places, max_keys, max_places,
}
use plug_node.Stream.Window.Search.{extract-search}

abbrev payload : Json
payload = obj (
    field "limits"
      (obj (
        field "stream_pull_window_size" (num (fraction 129 2))
          (field "maxStreamPullWindowSize" (num (whole 5000)) end)))
      end)

window_code : Unit {0}
unfolding clamp clamp_number ceiling child pick_positive_integer source_hint first_hint
    nested_sources extract_recommended source_max extract_max resolve_adaptive normalize_window_size
    get
window_code = tt

payload_recommended : extract_recommended payload ≡ some 43
unfolding window_code
payload_recommended = refl

payload_max : extract_max payload ≡ some 1000
unfolding window_code
payload_max = refl

extract-search_example :
    (extract_recommended payload
      ≡ clamp_hint (search_in recommended_keys recommended_places payload))
    × (extract_max payload ≡ clamp_hint (search_in max_keys max_places payload))
    × InRange 1000 (extract_recommended payload)
    × InRange 1000 (extract_max payload)
extract-search_example = extract-search payload

resolve_adaptive_bounds_example :
    (w : ℕ) × (resolve_adaptive (some (whole 4000)) (some 64) (some 300) none ≡ some w)
    × (1 ≤ w)
    × (w ≤ 1000)
    × AtMost (some 300) w
resolve_adaptive_bounds_example =
    resolve_adaptive_bounds (some (whole 4000)) (some 64) (some 300) none (λ e. cc)
