-- ===== src/Stream/Window.antt =====
-- streamPullWindowPolicy.ts, and `normalizeRelayStreamPullWindowSize` of relaySessionNormalization.ts:
-- the size of the window that the client asks for. A result that is not a number is `none`.
pub mod Bounds
pub mod Places
pub mod Search
mod Tests
use Prim.Native.String.{String}
use plug_node.Base.{
  ℕ, max, min, Bool, true, false, Option, none, some, List, [], ◌∷◌, ◌++◌, ltb, if◌then◌else◌,
}
use plug_node.Values.Number.{
  Number, nan, infinity, neg_infinity, fraction, negative, whole, floor, is_positive,
}
use plug_node.Values.Json.{Json, num, obj, Fields, get}

abbrev pub relay_max_stream_pull_window_size : ℕ
relay_max_stream_pull_window_size = 1000

abbrev pub default_relay_pull_window : ℕ
default_relay_pull_window = 256

abbrev pub stream_pull_hint_keys : List String
stream_pull_hint_keys =
    "recommendedStreamPullWindowSize" ∷ "recommended_stream_pull_window_size"
    ∷ "streamPullWindowSize" ∷ "stream_pull_window_size" ∷ []

abbrev pub max_stream_pull_hint_keys : List String
max_stream_pull_hint_keys = "maxStreamPullWindowSize" ∷ "max_stream_pull_window_size" ∷ []

-- `Math.floor` of a value that is a finite number above 0.
abbrev pub positive_floor : Option Json → Option ℕ
positive_floor (some (num (fraction n d))) = if ltb 0 n then some (floor n d) else none
positive_floor _ = none

abbrev pub or_else : Option ℕ → Option ℕ → Option ℕ
or_else none o = o
or_else (some n) o = some n

unfoldable pub pick_positive_integer : Option Fields → List String → Option ℕ
pick_positive_integer none keys = none
pick_positive_integer (some fs) [] = none
pick_positive_integer (some fs) (k ∷ keys) =
    or_else (positive_floor (get k fs)) (pick_positive_integer (some fs) keys)

-- `isRecord(source.key) ? source.key : null`
abbrev pub as_record : Option Json → Option Fields
as_record (some (obj fs)) = some fs
as_record _ = none

unfoldable pub child : String → Option Fields → Option Fields
child k none = none
child k (some fs) = as_record (get k fs)

-- `Math.min(maxWindowSize, Math.max(1, Math.floor(value)))`
unfoldable pub clamp_number : Number → ℕ → Option ℕ
clamp_number nan most = none
clamp_number infinity most = some most
clamp_number neg_infinity most = some (min most 1)
clamp_number (fraction n d) most = some (min most (max 1 (floor n d)))
clamp_number (negative n d) most = some (min most 1)

-- The same of a whole number, with the hub's maximum.
unfoldable pub clamp : ℕ → ℕ
clamp n = min relay_max_stream_pull_window_size (max 1 n)

abbrev pub clamp_hint : Option ℕ → Option ℕ
clamp_hint none = none
clamp_hint (some n) = some (clamp n)

-- A hint in a source itself, in its extensions or in its limits, each clamped where it is found.
unfoldable pub source_hint : List String → Option Fields → Option ℕ
source_hint keys source = or_else (clamp_hint (pick_positive_integer source keys)) (
    or_else (clamp_hint (pick_positive_integer (child "extensions" source) keys))
      (clamp_hint (pick_positive_integer (child "limits" source) keys)))

unfoldable pub first_hint : (Option Fields → Option ℕ) → List (Option Fields) → Option ℕ
first_hint hint [] = none
first_hint hint (source ∷ sources) = or_else (hint source) (first_hint hint sources)

-- The sources that both searches look into.
unfoldable pub nested_sources : Fields → List (Option Fields)
nested_sources fs =
    child "extensions" (some fs)
    ∷ child "limits" (some fs)
    ∷ child "result" (some fs)
    ∷ child "result" (child "item" (some fs))
    ∷ child "capabilities" (some fs)
    ∷ []

unfoldable pub extract_recommended : Json → Option ℕ
extract_recommended (obj fs) =
    or_else (clamp_hint (pick_positive_integer (some fs) stream_pull_hint_keys)) (
      first_hint (source_hint stream_pull_hint_keys)
        (nested_sources fs ++ child "agent" (some fs) ∷ []))
extract_recommended _ = none

-- A maximum in a source itself, in its limits or in its extensions.
unfoldable pub source_max : Option Fields → Option ℕ
source_max source = or_else (pick_positive_integer source max_stream_pull_hint_keys) (
    or_else (pick_positive_integer (child "limits" source) max_stream_pull_hint_keys)
      (pick_positive_integer (child "extensions" source) max_stream_pull_hint_keys))

unfoldable pub extract_max : Json → Option ℕ
extract_max (obj fs) =
    first_hint (λ (source : Option Fields). clamp_hint (source_max source))
      (some fs ∷ nested_sources fs)
extract_max _ = none

-- `input.agentMax ? clamp(input.agentMax, hubMax) : hubMax`, below the hub's maximum.
unfoldable pub ceiling : Option ℕ → ℕ
ceiling none = relay_max_stream_pull_window_size
ceiling (some n) =
    if ltb 0 n
    then min (clamp n) relay_max_stream_pull_window_size
    else relay_max_stream_pull_window_size

abbrev pub value_or : Option ℕ → ℕ → ℕ
value_or none d = d
value_or (some n) d = n

unfoldable pub resolve_adaptive :
    (configured : Option Number) (recommended agent_max fallback : Option ℕ) → Option ℕ
resolve_adaptive (some x) recommended agent_max fallback = clamp_number x (ceiling agent_max)
resolve_adaptive none recommended agent_max fallback =
    let preferred = value_or recommended (value_or fallback default_relay_pull_window) in
    clamp_number (whole preferred) (ceiling agent_max)

-- `normalizeRelayStreamPullWindowSize`
unfoldable pub normalize_window_size : Option Json → ℕ → ℕ → ℕ
normalize_window_size (some (num (fraction n d))) fallback most =
    if ltb 0 n then min most (max 1 (floor n d)) else fallback
normalize_window_size _ fallback most = fallback
