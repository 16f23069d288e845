-- ===== src/Identity.antt =====
-- rpcIdentity.ts: whether a response belongs to the commands that were sent.
pub mod Accepted
mod Tests
use Prim.Native.String.{String}
use text.Mathlib.Text.{◌==◌ as str_eq}
use plug_node.Base.{
  ℕ, Bool, true, false, not, ◌&&◌, ◌||◌, Option, none, some, List, [], ◌∷◌, ◌++◌, if◌then◌else◌,
  ◌==◌, ◌+◌, length,
}
use plug_node.Values.Number.{Number, nan, infinity, neg_infinity, fraction, negative}
use plug_node.Values.Json.{Json, null, bool, num, str, arr, obj, Items, nil, cons, Fields, get}

-- `list.includes(text)`, as of a set of texts.
unfoldable pub includes : String → List String → Bool
includes k [] = false
includes k (j ∷ ks) = str_eq j k || includes k ks

abbrev pub is_finite : Number → Bool
is_finite (fraction n d) = true
is_finite (negative n d) = true
is_finite _ = false

abbrev pub items_list : Items → List (Option Json)
items_list nil = []
items_list (cons v vs) = some v ∷ items_list vs

abbrev pub is_type : String → Option Json → Bool
is_type s (some (str t)) = str_eq t s
is_type s _ = false

-- The `items` of a batch, where they are an array.
abbrev pub batch_items : Option Json → Option (List (Option Json))
batch_items (some (arr vs)) = some (items_list vs)
batch_items _ = none

unfoldable pub single_items : Fields → List (Option Json)
single_items fs =
    if is_type "single" (get "type" fs) then get "item" fs ∷ [] else some (obj fs) ∷ []

unfoldable pub items_of : Json → List (Option Json)
items_of (arr vs) = items_list vs
items_of (obj fs) = elim (batch_items (get "items" fs)) [
  | none ↦ single_items fs
  | some items ↦ if is_type "batch" (get "type" fs) then items else single_items fs
]
items_of v = some v ∷ []

-- A command's id: undefined, null for a notification, or given.
abbrev pub is_undefined : Option Json → Bool
is_undefined none = true
is_undefined (some v) = false

abbrev pub is_notification : Option Json → Bool
is_notification (some null) = true
is_notification _ = false

unfoldable pub count_answered : List (Option Json) → ℕ
count_answered [] = 0
count_answered (id ∷ ids) =
    if is_notification id then count_answered ids else 1 + count_answered ids

unfoldable pub some_undefined : List (Option Json) → Bool
some_undefined [] = false
some_undefined (id ∷ ids) = is_undefined id || some_undefined ids

-- `String` of numbers is an argument.
module _ (show : Number → String) where
  -- `String(id)` of an id that is a text or a finite number.
  unfoldable pub id_text : Json → Option String
  id_text (str s) = some s
  id_text (num x) = if is_finite x then some (show x) else none
  id_text _ = none

  unfoldable pub expected_texts : List (Option Json) → List String
  expected_texts [] = []
  expected_texts (some (str s) ∷ ids) = s ∷ expected_texts ids
  expected_texts (some (num x) ∷ ids) = show x ∷ expected_texts ids
  expected_texts (id ∷ ids) = expected_texts ids

  -- The id of an item, where it is a record with one.
  unfoldable pub item_id : Option Json → Option Json
  item_id (some (obj fs)) = get "id" fs
  item_id item = none

  abbrev pub is_new : List String → List String → Option String → Bool
  is_new ids seen none = false
  is_new ids seen (some text) = includes text ids && not (includes text seen)

  abbrev pub seen_with : Option String → List String → List String
  seen_with none seen = seen
  seen_with (some text) seen = text ∷ seen

  -- The loop over the items; false where it throws.
  unfoldable pub check_items : (ids seen : List String) → List (Option Json) → Bool
  check_items ids seen [] = true
  check_items ids seen (item ∷ items) = elim (item_id item) [
    | none ↦ check_items ids seen items
    | some id ↦
        let text = id_text id in is_new ids seen text && check_items ids (seen_with text seen) items
  ]

  abbrev pub hub_ids : List (Option Json) → Option String → List String
  hub_ids (id ∷ []) (some hub_request_id) = hub_request_id ∷ []
  hub_ids expected hub_request_id = []

  -- `assertRpcResponseIdentity`: whether it returns. `is_batch` says that the commands are an array.
  unfoldable pub accepts_identity :
      (is_batch : Bool) (expected : List (Option Json)) → Option String → Json → Bool
  accepts_identity is_batch expected hub_request_id response =
      let items = items_of response in
      if is_batch && not (length items == count_answered expected)
      then false
      else if some_undefined expected
      then true
      else check_items (expected_texts expected ++ hub_ids expected hub_request_id) [] items

-- `assertResponseAgentIdentity`: whether it returns.
unfoldable pub accepts_agent : Json → String → Bool
accepts_agent (obj fs) agent_id = elim (get "agentId" fs) [
  | none ↦ true
  | some v ↦ is_type agent_id (some v)
]
accepts_agent response agent_id = true

unfoldable pub some_answered : List (Option Json) → Bool
some_answered [] = false
some_answered (id ∷ ids) = not (is_notification id) || some_answered ids

-- `assertRpcResponseType`: whether it returns.
unfoldable pub accepts_type : (notification : Bool) → List (Option Json) → Bool
accepts_type notification expected = not (notification && some_answered expected)
