-- ===== src/Identity/Tests.antt =====
-- Runs of the checks of a response, and the theorem at one of them.
use Prim.Native.String.{String}
use plug_node.Base.{◌≡◌, refl, true, false, Option, none, some, List, [], ◌∷◌, ◌++◌, All}
use plug_node.Values.Number.{Number, whole}
use plug_node.Values.Json.{Json, str, num, arr, obj, nil, cons, end, field, get}
use plug_node.Identity.{
  includes, single_items, items_of, count_answered, some_undefined, id_text, expected_texts,
  item_id, check_items, hub_ids, accepts_identity, accepts_agent, some_answered, accepts_type,
}
use plug_node.Identity.Accepted.{given_texts, IsDistinct, accepts_identity-IsDistinct}

abbrev show : Number → String
show x = "7"

abbrev item : Json → Json
item id = obj (field "id" id end)

abbrev sent : List (Option Json)
sent = some (str "a") ∷ some (num (whole 7)) ∷ []

identity_code : Unit {0}
unfolding get includes single_items items_of count_answered some_undefined id_text expected_texts
    item_id check_items accepts_identity accepts_agent some_answered accepts_type
identity_code = tt

abbrev answers : Json → Json → Json
answers a b =
    obj (field "type" (str "batch") (field "items" (arr (cons (item a) (cons (item b) nil))) end))

given : some_undefined sent ≡ false
unfolding identity_code
given = refl

answered : accepts_identity show true sent none (answers (num (whole 7)) (str "a")) ≡ true
unfolding identity_code
answered = refl

repeated : accepts_identity show true sent none (answers (str "a") (str "a")) ≡ false
unfolding identity_code
repeated = refl

foreign : accepts_identity show true sent none (answers (str "a") (str "b")) ≡ false
unfolding identity_code
foreign = refl

accepts_identity-IsDistinct_example :
    (texts : List String) × (given_texts show (items_of (answers (num (whole 7)) (str "a")))
      ≡ some texts)
    × All (λ t. includes t (expected_texts show sent ++ hub_ids show sent none) ≡ true) texts
    × IsDistinct texts
accepts_identity-IsDistinct_example =
    accepts_identity-IsDistinct show true sent none (answers (num (whole 7)) (str "a")) given
      answered
