-- ===== src/Stream/Window/Places.antt =====
-- The places of a payload that may hold a window size, as one list, in the order of the search.
use Prim.Native.String.{String}
use plug_node.Base.{ℕ, Option, none, some, List, [], ◌∷◌, map}
use plug_node.Values.Json.{Json, obj, Fields, get}
use plug_node.Stream.Window.{child, or_else, positive_floor}

-- The record behind the members that a path names.
abbrev pub at_path : List String → Option Fields → Option Fields
at_path [] source = source
at_path (k ∷ path) source = at_path path (child k source)

-- The value at a key of a record that may be missing.
abbrev pub member : Option Fields → String → Option Json
member none k = none
member (some fs) k = get k fs

-- The first finite number above 0 among some values, rounded down.
abbrev pub first_positive : List (Option Json) → Option ℕ
first_positive [] = none
first_positive (v ∷ vs) = or_else (positive_floor v) (first_positive vs)

-- The first place of which a key holds such a number.
abbrev pub search : (keys : List String) → (places : List (List String)) → Fields → Option ℕ
search keys [] fs = none
search keys (path ∷ places) fs =
    or_else (first_positive (map (member (at_path path (some fs))) keys)) (search keys places fs)

abbrev pub recommended_keys : List String
recommended_keys =
    "recommendedStreamPullWindowSize" ∷ "recommended_stream_pull_window_size"
    ∷ "streamPullWindowSize" ∷ "stream_pull_window_size" ∷ []

abbrev pub recommended_places : List (List String)
recommended_places =
    []
    ∷ ("extensions" ∷ [])
    ∷ ("extensions" ∷ "extensions" ∷ [])
    ∷ ("extensions" ∷ "limits" ∷ [])
    ∷ ("limits" ∷ [])
    ∷ ("limits" ∷ "extensions" ∷ [])
    ∷ ("limits" ∷ "limits" ∷ [])
    ∷ ("result" ∷ [])
    ∷ ("result" ∷ "extensions" ∷ [])
    ∷ ("result" ∷ "limits" ∷ [])
    ∷ ("item" ∷ "result" ∷ [])
    ∷ ("item" ∷ "result" ∷ "extensions" ∷ [])
    ∷ ("item" ∷ "result" ∷ "limits" ∷ [])
    ∷ ("capabilities" ∷ [])
    ∷ ("capabilities" ∷ "extensions" ∷ [])
    ∷ ("capabilities" ∷ "limits" ∷ [])
    ∷ ("agent" ∷ [])
    ∷ ("agent" ∷ "extensions" ∷ [])
    ∷ ("agent" ∷ "limits" ∷ [])
    ∷ []

abbrev pub max_keys : List String
max_keys = "maxStreamPullWindowSize" ∷ "max_stream_pull_window_size" ∷ []

abbrev pub max_places : List (List String)
max_places =
    []
    ∷ ("limits" ∷ [])
    ∷ ("extensions" ∷ [])
    ∷ ("extensions" ∷ [])
    ∷ ("extensions" ∷ "limits" ∷ [])
    ∷ ("extensions" ∷ "extensions" ∷ [])
    ∷ ("limits" ∷ [])
    ∷ ("limits" ∷ "limits" ∷ [])
    ∷ ("limits" ∷ "extensions" ∷ [])
    ∷ ("result" ∷ [])
    ∷ ("result" ∷ "limits" ∷ [])
    ∷ ("result" ∷ "extensions" ∷ [])
    ∷ ("item" ∷ "result" ∷ [])
    ∷ ("item" ∷ "result" ∷ "limits" ∷ [])
    ∷ ("item" ∷ "result" ∷ "extensions" ∷ [])
    ∷ ("capabilities" ∷ [])
    ∷ ("capabilities" ∷ "limits" ∷ [])
    ∷ ("capabilities" ∷ "extensions" ∷ [])
    ∷ []

abbrev pub search_in : List String → List (List String) → Json → Option ℕ
search_in keys places (obj fs) = search keys places fs
search_in keys places _ = none
