-- ===== src/Stream/Buffers/Merge.antt =====
-- What removing the stream's marker does to an answer, and the lemmas on its members.
use Prim.Native.String.{String}
use text.Mathlib.Text.{◌==◌ as str_eq}
use text.Mathlib.TextEquality.{eq_iff}
use plug_node.Base.{◌∙◌, ◌≡◌, refl, sym, subst, false, none, some, Bool-cases, inl, inr}
use plug_node.Values.Json.{Json, arr, obj, Items, Fields, end, field, get}
use plug_node.Stream.Buffers.{put, without, remove_stream_marker, result_of}

pub get-put :
    (k : String) (v : Json) (fs : Fields) (w : Json)
    → get k fs ≡ some w
    → get k (put k v fs) ≡ some v
unfolding get put
get-put k v end w h = cc
get-put k v (field j x fs) w h = elim (Bool-cases (str_eq j k)) [
  | inl e ↦ rw (e, get, put) (rw (e, get) refl)
  | inr e ↦ rw (e, get, put) (rw (e, get) (get-put k v fs w (rw (e, get) at h)))
]

get-without : (k : String) (fs : Fields) → get k (without k fs) ≡ none
unfolding get without
get-without k end = refl
get-without k (field j x fs) = elim (Bool-cases (str_eq j k)) [
  | inl e ↦ rw (e, without) (get-without k fs)
  | inr e ↦ rw (e, without) (rw (e, get) (get-without k fs))
]

rows-without : (fs : Fields) → get "rows" (without "stream_id" fs) ≡ get "rows" fs
unfolding get without
rows-without end = refl
rows-without (field j x fs) = elim (Bool-cases (str_eq j "stream_id")) [
  | inl e ↦
      let same = (eq_iff j "stream_id").0 e in
      let other : str_eq j "rows" ≡ false = subst (λ i. str_eq i "rows" ≡ false) (sym same) refl in
      rw (e, without) (rw (other, get) (rows-without fs))
  | inr e ↦ elim (Bool-cases (str_eq j "rows")) [
    | inl f ↦ rw (e, without) (rw (f, get) refl)
    | inr f ↦ rw (e, without) (rw (f, get) (rows-without fs))
  ]
]

-- Removing the marker from an answer with rows leaves a result without `stream_id` and with the
-- same rows.
remove_stream_marker_keeps :
    (fs rs : Fields) (rows : Items)
    → get "result" fs ≡ some (obj rs)
    → get "rows" rs ≡ some (arr rows)
    → (left : Fields) × (result_of (remove_stream_marker (obj fs)) ≡ some left)
      × (get "stream_id" left ≡ none)
      × (get "rows" left ≡ some (arr rows))
unfolding remove_stream_marker
remove_stream_marker_keeps fs rs rows h k = (
  without "stream_id" rs,
  rw (h, remove_stream_marker)
      (rw k (rw (get-put "result" (obj (without "stream_id" rs)) fs (obj rs) h, result_of) refl)),
  get-without "stream_id" rs,
  rows-without rs ∙ k,
)
