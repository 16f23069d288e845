-- ===== src/Mcp/Tokens.antt =====
-- mcp/forbiddenCapabilities.ts: names of capabilities as tokens. `trim`, `toLowerCase` and the
-- characters that `\s` matches are the language's.
use Prim.Native.Char.{Char, code}
use Prim.Native.String.{String, [], ◌∷◌, ◌++◌}
use text.Mathlib.Text.{◌==◌ as str_eq}
use plug_node.Base.{Bool, true, false, ◌&&◌, ◌||◌, ◌==◌, leb, if◌then◌else◌}

pub record Letters : Type 0 where
  pub trim : String → String
  pub to_lower : String → String
  pub is_space : Char → Bool

-- `[a-z0-9]`, `[A-Z]`, `[\s.-]` and `_`
abbrev pub is_lower_or_digit : Char → Bool
is_lower_or_digit c = (leb 97 (code c) && leb (code c) 122) || (leb 48 (code c) && leb (code c) 57)

abbrev pub is_upper : Char → Bool
is_upper c = leb 65 (code c) && leb (code c) 90

abbrev pub is_separator : Letters → Char → Bool
is_separator g c = g.is_space c || (code c == 46 || code c == 45)

abbrev pub is_underscore : Char → Bool
is_underscore c = code c == 95

-- `replace(/([a-z0-9])([A-Z])/g, "$1_$2")`
unfoldable pub split_case : String → String
split_case [] = []
split_case (c ∷ []) = c ∷ []
split_case (c ∷ (d ∷ s)) =
    let rest = split_case (d ∷ s) in
    if is_lower_or_digit c && is_upper d then c ∷ ("_" ++ rest) else c ∷ rest

-- Each run of characters that fit becomes one underscore; `within` tells that a run has begun.
unfoldable pub squash : (Char → Bool) → (within : Bool) → String → String
squash test within [] = []
squash test within (c ∷ s) =
    let run = squash test true s in
    let rest = squash test false s in
    if test c then (if within then run else "_" ++ run) else c ∷ rest

-- `replace(/^_|_$/g, "")`
unfoldable pub strip_start : String → String
strip_start [] = []
strip_start (c ∷ s) = if is_underscore c then s else c ∷ s

unfoldable pub strip_end : String → String
strip_end [] = []
strip_end (c ∷ []) = if is_underscore c then [] else c ∷ []
strip_end (c ∷ (d ∷ s)) = c ∷ strip_end (d ∷ s)

-- `normalizeToken`
unfoldable pub normalize_token : Letters → String → String
normalize_token g t = strip_end (
    strip_start (
      squash is_underscore false
        (squash (is_separator g) false (g.to_lower (split_case (g.trim t))))))

-- `text.startsWith(prefix)`, `endsWith` and `includes`
unfoldable pub starts_with : String → String → Bool
starts_with s [] = true
starts_with [] (d ∷ t) = false
starts_with (c ∷ s) (d ∷ t) = (code c == code d) && starts_with s t

unfoldable pub ends_with : String → String → Bool
ends_with [] t = str_eq [] t
ends_with (c ∷ s) t = str_eq (c ∷ s) t || ends_with s t

unfoldable pub contains : String → String → Bool
contains [] t = starts_with [] t
contains (c ∷ s) t = starts_with (c ∷ s) t || contains s t

-- The test of one forbidden token.
unfoldable pub matches_token : String → String → Bool
matches_token normalized token =
    str_eq normalized token
    || (starts_with normalized (token ++ "_")
        || (ends_with normalized ("_" ++ token) || contains normalized ("_" ++ (token ++ "_"))))
