-- ===== src/Identity/Accepted.antt =====
-- The ids of a response that was accepted.
use Prim.Native.String.{String}
use text.Mathlib.Text.{◌==◌ as str_eq}
use plug_node.Base.{
  and-true, ◌≡◌, refl, Bool, true, false, not, ◌&&◌, Option, none, some, List, [], ◌∷◌, ◌++◌, All,
  Option-cases, inl, inr, length, ◌==◌, ◌||◌, if◌then◌else◌,
}
use plug_node.Values.Number.{Number}
use plug_node.Values.Json.{Json}
use plug_node.Identity.{
  includes, id_text, item_id, is_new, seen_with, check_items, items_of, accepts_identity,
  count_answered, some_undefined, expected_texts, hub_ids,
}

or-false : (a b : Bool) → (a || b) ≡ false → (a ≡ false) × (b ≡ false)
or-false true b h = cc
or-false false b h = (refl, h)

not-true : (b : Bool) → not b ≡ true → b ≡ false
not-true true h = cc
not-true false h = refl

-- The texts of the ids that the items have; none where an id is neither a text nor a finite number.
unfoldable pub given_texts : (Number → String) → List (Option Json) → Option (List String)
given_texts show [] = some []
given_texts show (item ∷ items) =
    let rest = given_texts show items in
    elim (item_id show item) [
      | none ↦ rest
      | some id ↦ elim (id_text show id) [
        | none ↦ none
        | some text ↦ elim rest [ none ↦ none | some texts ↦ some (text ∷ texts) ]
      ]
    ]

-- No text stands in the list twice.
abbrev pub IsDistinct : List String → Type 0
IsDistinct [] = Unit
IsDistinct (t ∷ ts) = All (λ j. str_eq t j ≡ false) ts × IsDistinct ts

All-map :
    {P Q : String → Type 0} → ((t : String) → P t → Q t) → (ts : List String) → All P ts → All Q ts
All-map f [] h = tt
All-map f (t ∷ ts) (p, h) = (f t p, All-map f ts h)

module _ (show : Number → String) (ids : List String) where
  -- An id that is expected and was not seen before.
  abbrev Fresh : List String → String → Type 0
  Fresh seen t = (includes t ids ≡ true) × (includes t seen ≡ false)

  abbrev Checked : List String → List (Option Json) → Type 0
  Checked seen items =
      (texts : List String) × (given_texts show items ≡ some texts)
      × All (Fresh seen) texts
      × IsDistinct texts

  apart :
      (text : String) (seen : List String) (t : String)
      → Fresh (text ∷ seen) t
      → Fresh seen t × (str_eq text t ≡ false)
  unfolding includes
  apart text seen t (p, q) =
      let (a, b) = or-false (str_eq text t) (includes t seen) q in ((p, b), a)

  Checked-item :
      (seen : List String) (item : Option Json) (items : List (Option Json)) (id : Json)
      (text : Option String)
      → item_id show item ≡ some id
      → id_text show id ≡ text
      → is_new show ids seen text ≡ true
      → Checked (seen_with show text seen) items
      → Checked seen (item ∷ items)
  unfolding given_texts
  Checked-item seen item items id none e f n h = cc
  Checked-item seen item items id (some text) e f n (texts, given, fresh, distinct) =
      let (p, q) = and-true (includes text ids) (not (includes text seen)) n in
      (
        text ∷ texts,
        rw (e, given_texts) (rw f (rw given refl)),
        ((p, not-true _ q), All-map (λ t k. (apart text seen t k).0) texts fresh),
        (All-map (λ t k. (apart text seen t k).1) texts fresh, distinct),
      )

  check_items-Checked :
      (items : List (Option Json)) (seen : List String)
      → check_items show ids seen items ≡ true
      → Checked seen items
  unfolding check_items given_texts
  check_items-Checked [] seen h = ([], refl, tt, tt)
  check_items-Checked (item ∷ items) seen h = elim (Option-cases (item_id show item)) [
    | inl e ↦
        let (texts, given, fresh, distinct) =
          check_items-Checked items seen (rw (e, check_items) at h) in
        (texts, rw (e, given_texts) given, fresh, distinct)
    | inr (id, e) ↦
        let (new, rest) =
          and-true (is_new show ids seen (id_text show id))
            (check_items show ids (seen_with show (id_text show id) seen) items)
            (rw (e, check_items) at h) in
        Checked-item seen item items id (id_text show id) e refl new
          (check_items-Checked items (seen_with show (id_text show id) seen) rest)
  ]

else-true : (a b : Bool) → (if a then false else b) ≡ true → b ≡ true
else-true true b h = cc
else-true false b h = h

-- A response that is accepted for commands whose ids are all given has only ids that are texts or
-- finite numbers, each of them of a command that expects an answer or the hub's for a single
-- command, and none twice.
pub accepts_identity-IsDistinct :
    (show : Number → String) (is_batch : Bool) (expected : List (Option Json)) (hub : Option String)
    (response : Json)
    → some_undefined expected ≡ false
    → accepts_identity show is_batch expected hub response ≡ true
    → (texts : List String) × (given_texts show (items_of response) ≡ some texts)
      × All
          (λ t. includes t (expected_texts show expected ++ hub_ids show expected hub) ≡ true)
          texts
      × IsDistinct texts
unfolding accepts_identity
accepts_identity-IsDistinct show is_batch expected hub response u h =
    let tested : (if is_batch && not (length (items_of response) == count_answered expected)
          then false
          else check_items show (expected_texts show expected ++ hub_ids show expected hub) []
              (items_of response))
        ≡ true =
      rw u at h in
    let checked = else-true _ _ tested in
    let (texts, given, fresh, distinct) =
      check_items-Checked show (expected_texts show expected ++ hub_ids show expected hub)
        (items_of response) [] checked in
    (texts, given, All-map (λ t k. k.0) texts fresh, distinct)
