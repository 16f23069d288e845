-- ===== src/Mcp/Governance/Masking.antt =====
-- mcp/governance.ts: the columns of the rows that a capability answers.
use Prim.Native.String.{String}
use text.Mathlib.Text.{◌==◌ as str_eq}
use text.Mathlib.TextEquality.{eq_iff}
use mathlib.Core.Path.{fun_ext}
use plug_node.Base.{
  ◌≡◌, refl, subst, not, ◌&&◌, Bool, false, Option, none, some, List, [], ◌∷◌, map, arith,
  if◌then◌else◌, at_if,
}
use plug_node.Identity.{includes}
use plug_node.Values.Json.{Json, str, Fields, end, field, get}
use plug_node.Mcp.Governance.{masked_set, mask_row, mask_rows, mask_sensitive_columns}

-- `[redacted]` in the place of a value.
abbrev pub redact : Option Json → Option Json
redact none = none
redact (some v) = some (str "[redacted]")

mask_row-get :
    (lower : String → String) (masked : List String) (fs : Fields) (k : String)
    → get k (mask_row lower masked fs)
      ≡ (if includes (lower k) masked then redact (get k fs) else get k fs)
unfolding mask_row get
mask_row-get lower masked end k = ground arith
mask_row-get lower masked (field j v fs) k =
    at_if
      (λ (row : Fields). get k row ≡ (
        if includes (lower k) masked then redact (get k (field j v fs)) else get k (field j v fs)))
      (includes (lower j) masked) _ _
      (λ hidden. ground (arith, eq_iff j k, hidden, mask_row-get lower masked fs k))
      λ shown. ground (arith, eq_iff j k, shown, mask_row-get lower masked fs k)

-- A column is masked if its text in lower case is not empty and that of one of the configured ones.
abbrev pub is_masked : (trim lower : String → String) → List String → String → Bool
is_masked trim lower columns k =
    includes (lower k) (map (λ t. lower (trim t)) columns) && not (str_eq (lower k) "")

includes-masked_set :
    (normal : String → String) (columns : List String) (k : String)
    → includes k (masked_set normal columns)
      ≡ (includes k (map normal columns) && not (str_eq k ""))
unfolding includes masked_set
includes-masked_set normal [] k = refl
includes-masked_set normal (c ∷ cs) k =
    ground (
      arith,
      includes-masked_set normal cs k,
      eq_iff (normal c) "",
      eq_iff (normal c) k,
      eq_iff k "",
    )

-- A row and what becomes of it, column by column.
abbrev pub Masks : (hidden : String → Bool) → Fields → Fields → Type 0
Masks hidden row shown =
    (k : String) → get k shown ≡ (if hidden k then redact (get k row) else get k row)

-- Rows and what becomes of them, one by one.
pub data MasksAll (hidden : String → Bool) : List Fields → List Fields → Type 0 where
  no_rows : MasksAll hidden [] []
  rows :
      {row shown : Fields} {rs ss : List Fields}
      → Masks hidden row shown
      → MasksAll hidden rs ss
      → MasksAll hidden (row ∷ rs) (shown ∷ ss)

same-MasksAll :
    (hidden : String → Bool) (rs : List Fields)
    → ((k : String) → hidden k ≡ false)
    → MasksAll hidden rs rs
same-MasksAll hidden [] h = no_rows
same-MasksAll hidden (r ∷ rs) h = rows (λ k. rw (h k) refl) (same-MasksAll hidden rs h)

map-MasksAll :
    (hidden : String → Bool) (f : Fields → Fields) (rs : List Fields)
    → ((r : Fields) → Masks hidden r (f r))
    → MasksAll hidden rs (map f rs)
map-MasksAll hidden f [] h = no_rows
map-MasksAll hidden f (r ∷ rs) h = rows (h r) (map-MasksAll hidden f rs h)

mask_rows-MasksAll :
    (lower : String → String) (masked : List String) (rs : List Fields)
    → MasksAll (λ k. includes (lower k) masked) rs (mask_rows lower masked rs)
unfolding mask_rows includes
mask_rows-MasksAll lower [] rs = same-MasksAll _ rs λ k. refl
mask_rows-MasksAll lower (c ∷ cs) rs = map-MasksAll _ _ rs (mask_row-get lower (c ∷ cs))

abbrev pub columns_of : Option (List String) → List String
columns_of none = []
columns_of (some columns) = columns

-- Of each row that a capability answers, the columns that the governance masks have the text
-- [redacted] if they are there, and the others are as they were: a column is masked exactly if its
-- name in lower case is that of a configured column, trimmed, and not empty.
pub mask_sensitive_columns-MasksAll :
    (trim lower : String → String) (rs : List Fields) (columns : Option (List String))
    → MasksAll
        (is_masked trim lower (columns_of columns))
        rs
        (mask_sensitive_columns trim lower rs columns)
unfolding mask_sensitive_columns includes
mask_sensitive_columns-MasksAll trim lower rs none = same-MasksAll _ rs λ k. refl
mask_sensitive_columns-MasksAll trim lower rs (some []) = same-MasksAll _ rs λ k. refl
mask_sensitive_columns-MasksAll trim lower rs (some (c ∷ cs)) =
    subst
      (λ (hidden : String → Bool).
        MasksAll hidden rs (mask_rows lower (masked_set (λ t. lower (trim t)) (c ∷ cs)) rs))
      (fun_ext λ k. includes-masked_set (λ t. lower (trim t)) (c ∷ cs) (lower k))
      (mask_rows-MasksAll lower (masked_set (λ t. lower (trim t)) (c ∷ cs)) rs)
