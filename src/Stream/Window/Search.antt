-- ===== src/Stream/Window/Search.antt =====
-- Where the window sizes of a payload are searched for, against a flat list of the places.
use Prim.Native.String.{String}
use plug_node.Base.{ℕ, ◌≡◌, ◌∙◌, refl, sym, ap, Option, none, some, List, [], ◌∷◌, ◌++◌, map}
use plug_node.Values.Json.{Json, null, bool, num, str, arr, obj, Fields, get}
use plug_node.Stream.Window.{
  clamp_hint, child, or_else, positive_floor, pick_positive_integer, source_hint, first_hint,
  nested_sources, extract_recommended, source_max, extract_max, stream_pull_hint_keys,
  max_stream_pull_hint_keys, relay_max_stream_pull_window_size,
}
use plug_node.Stream.Window.Bounds.{InRange, clamp_hint-InRange}
use plug_node.Stream.Window.Places.{
  at_path, member, first_positive, search, recommended_keys, recommended_places, max_keys,
  max_places, search_in,
}

or_else_assoc : (a b c : Option ℕ) → or_else (or_else a b) c ≡ or_else a (or_else b c)
or_else_assoc none b c = refl
or_else_assoc (some n) b c = refl

clamp_hint-or_else :
    (a b : Option ℕ) → clamp_hint (or_else a b) ≡ or_else (clamp_hint a) (clamp_hint b)
clamp_hint-or_else none b = refl
clamp_hint-or_else (some n) b = refl

pick-first :
    (source : Option Fields) (keys : List String)
    → pick_positive_integer source keys ≡ first_positive (map (member source) keys)
unfolding pick_positive_integer
pick-first none [] = refl
pick-first none (k ∷ keys) = pick-first none keys
pick-first (some fs) [] = refl
pick-first (some fs) (k ∷ keys) =
    ap (or_else (positive_floor (get k fs))) (pick-first (some fs) keys)

at_path-snoc :
    (path : List String) (k : String) (source : Option Fields)
    → at_path (path ++ k ∷ []) source ≡ child k (at_path path source)
at_path-snoc [] k source = refl
at_path-snoc (j ∷ path) k source = at_path-snoc path k (child j source)

-- The sources' places, each with those below it at two keys.
below : (j k : String) → List (List String) → List (List String)
below j k [] = []
below j k (path ∷ paths) = path ∷ (path ++ j ∷ []) ∷ (path ++ k ∷ []) ∷ below j k paths

-- The search at a source, at two keys below it, and at the places behind.
triple :
    (keys path : List String) (j k : String) (rest : List (List String)) (fs : Fields)
    → search keys (path ∷ (path ++ j ∷ []) ∷ (path ++ k ∷ []) ∷ rest) fs
      ≡ or_else
          (or_else (pick_positive_integer (at_path path (some fs)) keys) (
            or_else
              (pick_positive_integer (child j (at_path path (some fs))) keys)
              (pick_positive_integer (child k (at_path path (some fs))) keys)))
          (search keys rest fs)
triple keys path j k rest fs =
    let source = at_path path (some fs) in
    rw
      (
        at_path-snoc path j (some fs),
        at_path-snoc path k (some fs),
        ← pick-first source keys,
        ← pick-first (child j source) keys,
        ← pick-first (child k source) keys,
        or_else_assoc (pick_positive_integer source keys)
            (or_else (pick_positive_integer (child j source) keys)
              (pick_positive_integer (child k source) keys))
            (search keys rest fs),
        or_else_assoc (pick_positive_integer (child j source) keys)
            (pick_positive_integer (child k source) keys) (search keys rest fs),
      )
      refl

first_hint-source_hint :
    (keys : List String) (fs : Fields) (paths : List (List String))
    → first_hint (source_hint keys) (map (λ (p : List String). at_path p (some fs)) paths)
      ≡ clamp_hint (search keys (below "extensions" "limits" paths) fs)
unfolding first_hint source_hint below
first_hint-source_hint keys fs [] = refl
first_hint-source_hint keys fs (path ∷ paths) =
    let source = at_path path (some fs) in
    let a = pick_positive_integer source keys in
    let b = pick_positive_integer (child "extensions" source) keys in
    let c = pick_positive_integer (child "limits" source) keys in
    let rest = search keys (below "extensions" "limits" paths) fs in
    rw
      (
        triple keys path "extensions" "limits" (below "extensions" "limits" paths) fs,
        clamp_hint-or_else (or_else a (or_else b c)) rest,
        clamp_hint-or_else a (or_else b c),
        clamp_hint-or_else b c,
        first_hint-source_hint keys fs paths,
      )
      refl

first_hint-source_max :
    (fs : Fields) (paths : List (List String))
    → first_hint
        (λ (source : Option Fields). clamp_hint (source_max source))
        (map (λ (p : List String). at_path p (some fs)) paths)
      ≡ clamp_hint (search max_stream_pull_hint_keys (below "limits" "extensions" paths) fs)
unfolding first_hint source_max below
first_hint-source_max fs [] = refl
first_hint-source_max fs (path ∷ paths) =
    let source = at_path path (some fs) in
    let keys = max_stream_pull_hint_keys in
    let a = pick_positive_integer source keys in
    let b = pick_positive_integer (child "limits" source) keys in
    let c = pick_positive_integer (child "extensions" source) keys in
    let rest = search keys (below "limits" "extensions" paths) fs in
    rw
      (
        triple keys path "limits" "extensions" (below "limits" "extensions" paths) fs,
        clamp_hint-or_else (or_else a (or_else b c)) rest,
        first_hint-source_max fs paths,
      )
      refl

nested_paths : List (List String)
nested_paths =
    ("extensions" ∷ [])
    ∷ ("limits" ∷ [])
    ∷ ("result" ∷ [])
    ∷ ("item" ∷ "result" ∷ [])
    ∷ ("capabilities" ∷ [])
    ∷ []

recommended_search :
    (fs : Fields)
    → extract_recommended (obj fs) ≡ clamp_hint (search recommended_keys recommended_places fs)
unfolding extract_recommended nested_sources below nested_paths first_hint
recommended_search fs =
    let keys = stream_pull_hint_keys in
    let paths = nested_paths ++ ("agent" ∷ []) ∷ [] in
    let rest = first_hint-source_hint keys fs paths in
    let later : Option ℕ = search keys (below "extensions" "limits" paths) fs in
    ap (or_else (clamp_hint (pick_positive_integer (some fs) keys))) rest
    ∙ sym (clamp_hint-or_else (pick_positive_integer (some fs) keys) later)
    ∙ ap (λ (o : Option ℕ). clamp_hint (or_else o later)) (pick-first (some fs) keys)

max_search : (fs : Fields) → extract_max (obj fs) ≡ clamp_hint (search max_keys max_places fs)
unfolding extract_max nested_sources below nested_paths
max_search fs = first_hint-source_max fs ([] ∷ nested_paths)

searched_recommended :
    (payload : Json)
    → extract_recommended payload
      ≡ clamp_hint (search_in recommended_keys recommended_places payload)
unfolding extract_recommended
searched_recommended null = refl
searched_recommended (bool b) = refl
searched_recommended (num x) = refl
searched_recommended (str s) = refl
searched_recommended (arr vs) = refl
searched_recommended (obj fs) = recommended_search fs

searched_max :
    (payload : Json) → extract_max payload ≡ clamp_hint (search_in max_keys max_places payload)
unfolding extract_max
searched_max null = refl
searched_max (bool b) = refl
searched_max (num x) = refl
searched_max (str s) = refl
searched_max (arr vs) = refl
searched_max (obj fs) = max_search fs

-- Whatever a payload holds: the recommended window size is the first finite number above 0 that its
-- 19 places hold under four keys, and the largest one that which its 18 places hold under two, in
-- their order; each is rounded down and clamped, and none where no place has one. So each lies
-- between 1 and the hub's maximum.
pub extract-search :
    (payload : Json)
    → (extract_recommended payload
        ≡ clamp_hint (search_in recommended_keys recommended_places payload))
      × (extract_max payload ≡ clamp_hint (search_in max_keys max_places payload))
      × InRange relay_max_stream_pull_window_size (extract_recommended payload)
      × InRange relay_max_stream_pull_window_size (extract_max payload)
extract-search payload =
    let a = searched_recommended payload in
    let b = searched_max payload in (a, b, rw a (clamp_hint-InRange _), rw b (clamp_hint-InRange _))
