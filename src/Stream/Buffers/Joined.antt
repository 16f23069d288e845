-- ===== src/Stream/Buffers/Joined.antt =====
-- What merging a chunk's rows does to an answer, and where it does nothing.
use Prim.Native.String.{String}
use text.Mathlib.Text.{◌==◌ as str_eq}
use text.Mathlib.TextEquality.{eq_iff}
use plug_node.Base.{
  ap, Option, ◌⊎◌, ◌+◌, ◌≤◌, arith, Option-cases, ◌≡◌, refl, sym, subst, false, none, some,
  Bool-cases, inl, inr,
}
use plug_node.Values.Json.{
  Json, null, bool, num, str, arr, obj, Items, nil, cons, Fields, end, field, get,
}
use plug_node.Stream.Buffers.{
  rows_of, count_rows, count_items, count_result_rows, put, append_items, merge_rows, merge_into,
  try_merge_chunk_rows, result_of, result_rows,
}
use plug_node.Stream.Buffers.Merge.{get-put}

get-put-other :
    (k j : String) (v : Json) (fs : Fields) → str_eq k j ≡ false → get j (put k v fs) ≡ get j fs
unfolding get put
get-put-other k j v end other = refl
get-put-other k j v (field i x fs) other = elim (Bool-cases (str_eq i k)) [
  | inl e ↦
      let same = (eq_iff i k).0 e in
      let apart : str_eq i j ≡ false = subst (λ h. str_eq h j ≡ false) (sym same) other in
      rw (e, put) (rw (apart, get) refl)
  | inr e ↦ elim (Bool-cases (str_eq i j)) [
    | inl f ↦ rw (e, put) (rw (f, get) refl)
    | inr f ↦ rw (e, put) (rw (f, get) (get-put-other k j v fs other))
  ]
]

-- What a value is whose rows are these, and one that has none.
rows_of-some : (o : Option Json) (rows : Items) → rows_of o ≡ some rows → o ≡ some (arr rows)
rows_of-some (some (arr vs)) rows h = cc
rows_of-some none rows h = cc
rows_of-some (some null) rows h = cc
rows_of-some (some (bool b)) rows h = cc
rows_of-some (some (num x)) rows h = cc
rows_of-some (some (str s)) rows h = cc
rows_of-some (some (obj fs)) rows h = cc

count_rows-none : (o : Option Json) → rows_of o ≡ none → count_rows o ≡ 0
unfolding count_rows
count_rows-none (some (arr vs)) h = cc
count_rows-none none h = refl
count_rows-none (some null) h = refl
count_rows-none (some (bool b)) h = refl
count_rows-none (some (num x)) h = refl
count_rows-none (some (str s)) h = refl
count_rows-none (some (obj fs)) h = refl

result_of-some : (fs rs : Fields) → result_of (obj fs) ≡ some rs → get "result" fs ≡ some (obj rs)
result_of-some fs rs h = at_value (get "result" fs) h
  where
    at_value :
        (o : Option Json)
        → elim o as (λ _. Option Fields) [ some (obj qs) ↦ some qs | _ ↦ none ] ≡ some rs
        → o ≡ some (obj rs)
    at_value (some (obj qs)) h = cc
    at_value none h = cc
    at_value (some null) h = cc
    at_value (some (bool b)) h = cc
    at_value (some (num x)) h = cc
    at_value (some (str s)) h = cc
    at_value (some (arr vs)) h = cc

count-append : (xs ys : Items) → count_items (append_items xs ys) ≡ count_items xs + count_items ys
unfolding count_items append_items
count-append nil ys = omega arith
count-append (cons v vs) ys = omega (arith, count-append vs ys)

count-found :
    (response : Json) (rs : Fields) (rows : Items)
    → result_of response ≡ some rs
    → get "rows" rs ≡ some (arr rows)
    → count_result_rows response ≡ count_items rows
unfolding count_result_rows count_rows
count-found response rs rows h k = rw (h, count_result_rows) (rw k refl)

-- A member of a record.
abbrev pub member : String → Json → Option Json
member k (obj fs) = get k fs
member k _ = none

-- The two ways in which merging ends, with what becomes of the member `j` of the answer and the
-- member `k` of its result.
pub data Merges (j k : String) (response : Json) (chunk : Fields) (r : Option Json) : Type 0 where
  unmerged :
      r ≡ none
      → (result_rows response ≡ none) ⊎ (count_rows (get "rows" chunk) ≡ 0)
      → Merges j k response chunk r
  merged :
      (m : Json) (before after : Fields) (rows more : Items)
      → r ≡ some m
      → result_of response ≡ some before
      → result_of m ≡ some after
      → get "rows" before ≡ some (arr rows)
      → get "rows" chunk ≡ some (arr more)
      → get "rows" after ≡ some (arr (append_items rows more))
      → count_result_rows m ≡ count_result_rows response + count_rows (get "rows" chunk)
      → 1 ≤ count_rows (get "rows" chunk)
      → get k after ≡ get k before
      → member j m ≡ member j response
      → Merges j k response chunk r

module _ (j k : String) (apart_j : str_eq "result" j ≡ false) (apart_k : str_eq "rows" k ≡ false)
    (fs rs chunk : Fields) (found : get "result" fs ≡ some (obj rs)) where
  into_rows :
      (rows more : Items)
      → get "rows" rs ≡ some (arr rows)
      → get "rows" chunk ≡ some (arr more)
      → Merges j k (obj fs) chunk (merge_into fs rs (merge_rows (some rows) (some more)))
  unfolding merge_rows merge_into result_rows count_result_rows count_rows count_items
  into_rows rows nil h m = unmerged refl (inr (rw m refl))
  into_rows rows (cons v vs) h m =
      let all = append_items rows (cons v vs) in
      let after = put "rows" (arr all) rs in
      let whole = put "result" (obj after) fs in
      let kept = get-put "result" (obj after) fs (obj rs) found in
      let there = get-put "rows" (arr all) rs (arr rows) h in
      merged (obj whole) rs after rows (cons v vs) refl (rw (found, result_of) refl)
        (rw (kept, result_of) refl) h m there
        (omega (
          arith,
          count-found (obj whole) after all (rw (kept, result_of) refl) there,
          count-found (obj fs) rs rows (rw (found, result_of) refl) h,
          count-append rows (cons v vs),
          ap count_rows m,
        ))
        (rw m (omega arith)) (get-put-other "rows" k (arr all) rs apart_k)
        (get-put-other "result" j (obj after) fs apart_j)

  into_chunk :
      (rows : Items)
      → get "rows" rs ≡ some (arr rows)
      → Merges j k
          (obj fs)
          chunk
          (merge_into fs rs (merge_rows (some rows) (rows_of (get "rows" chunk))))
  unfolding merge_rows merge_into
  into_chunk rows h = elim (Option-cases (rows_of (get "rows" chunk))) [
    | inl e ↦ rw e (unmerged refl (inr (count_rows-none (get "rows" chunk) e)))
    | inr (more, e) ↦ rw e (into_rows rows more h (rows_of-some (get "rows" chunk) more e))
  ]

  into_result : Merges j k (obj fs) chunk (try_merge_chunk_rows (obj fs) chunk)
  unfolding try_merge_chunk_rows merge_rows merge_into result_rows
  into_result = elim (Option-cases (rows_of (get "rows" rs))) [
    | inl e ↦
        rw (found, try_merge_chunk_rows) (rw e (unmerged refl (inl (rw (found, result_rows) e))))
    | inr (rows, e) ↦
        rw (found, try_merge_chunk_rows)
          (rw e (into_chunk rows (rows_of-some (get "rows" rs) rows e)))
  ]

-- Merging a chunk's rows into an answer leaves nothing to merge exactly where the answer is no success
-- with rows or the chunk has no row. Else the rows of the merged answer are the answer's and then the
-- chunk's, in order, as many as both together; every other member of the result, and every other
-- member of the answer, is what it was.
pub merge-Merges :
    (j k : String) (response : Json) (chunk : Fields)
    → str_eq "result" j ≡ false
    → str_eq "rows" k ≡ false
    → Merges j k response chunk (try_merge_chunk_rows response chunk)
unfolding try_merge_chunk_rows result_rows
merge-Merges j k (obj fs) chunk a b = elim (Option-cases (result_of (obj fs))) [
  | inl e ↦ rw (e, try_merge_chunk_rows) (unmerged refl (inl (rw (e, result_rows) refl)))
  | inr (rs, e) ↦ into_result j k a b fs rs chunk (result_of-some fs rs e)
]
merge-Merges j k null chunk a b = unmerged refl (inl refl)
merge-Merges j k (bool x) chunk a b = unmerged refl (inl refl)
merge-Merges j k (num x) chunk a b = unmerged refl (inl refl)
merge-Merges j k (str s) chunk a b = unmerged refl (inl refl)
merge-Merges j k (arr vs) chunk a b = unmerged refl (inl refl)
