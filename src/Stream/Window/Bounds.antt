-- ===== src/Stream/Window/Bounds.antt =====
-- The bounds of every window size that the client asks for.
use plug_node.Base.{zero, suc, ℕ, ◌≤◌, ◌≡◌, ◌∙◌, ap, ◌≢◌, refl, Option, none, some, arith}
use plug_node.Values.Number.{Number, nan, infinity, neg_infinity, fraction, negative, whole}
use plug_node.Values.Json.{Json, null, bool, num, str, arr, obj}
use plug_node.Stream.Window.{
  clamp, clamp_hint, clamp_number, ceiling, resolve_adaptive, relay_max_stream_pull_window_size,
  normalize_window_size,
}

-- A hint that was found lies within the hub's bounds.
abbrev pub InRange : ℕ → Option ℕ → Type 0
InRange most none = Unit
InRange most (some n) = (1 ≤ n) × (n ≤ most)

pub clamp_hint-InRange : (o : Option ℕ) → InRange relay_max_stream_pull_window_size (clamp_hint o)
unfolding clamp
clamp_hint-InRange none = tt
clamp_hint-InRange (some n) = ground arith

ceiling_bounds : (o : Option ℕ) → (1 ≤ ceiling o) × (ceiling o ≤ relay_max_stream_pull_window_size)
unfolding ceiling clamp
ceiling_bounds none = omega arith
ceiling_bounds (some n) = ground arith

-- Within a maximum that is known; none, or 0, is unknown.
abbrev pub AtMost : Option ℕ → ℕ → Type 0
AtMost none w = Unit
AtMost (some zero) w = Unit
AtMost (some (suc n)) w = w ≤ suc n

ceiling-AtMost : (o : Option ℕ) (w : ℕ) → w ≤ ceiling o → AtMost o w
unfolding ceiling clamp
ceiling-AtMost none w h = tt
ceiling-AtMost (some zero) w h = tt
ceiling-AtMost (some (suc n)) w h = ground (arith, h)

clamp_number-InRange : (x : Number) (most : ℕ) → 1 ≤ most → InRange most (clamp_number x most)
unfolding clamp_number
clamp_number-InRange nan most h = tt
clamp_number-InRange infinity most h = omega arith
clamp_number-InRange neg_infinity most h = omega arith
clamp_number-InRange (fraction n d) most h = omega (arith)
clamp_number-InRange (negative n d) most h = omega arith

clamp_number-some : (x : Number) (most : ℕ) → x ≢ nan → (w : ℕ) × (clamp_number x most ≡ some w)
unfolding clamp_number
clamp_number-some nan most h = absurd (h refl)
clamp_number-some infinity most h = (_, refl)
clamp_number-some neg_infinity most h = (_, refl)
clamp_number-some (fraction n d) most h = (_, refl)
clamp_number-some (negative n d) most h = (_, refl)

resolve-some :
    (configured : Option Number) (recommended agent_max fallback : Option ℕ)
    → configured ≢ some nan
    → (x : Number) × (x ≢ nan)
      × (resolve_adaptive configured recommended agent_max fallback
          ≡ clamp_number x (ceiling agent_max))
unfolding resolve_adaptive
resolve-some (some x) recommended agent_max fallback h = (x, (λ e. h (ap some e)), refl)
resolve-some none recommended agent_max fallback h = (whole _, (λ e. cc), refl)

-- The resolved size is a number unless NaN is configured. It lies between 1 and the hub's maximum,
-- and does not exceed the agent's maximum where that is known and not 0.
pub resolve_adaptive_bounds :
    (configured : Option Number) (recommended agent_max fallback : Option ℕ)
    → configured ≢ some nan
    → (w : ℕ) × (resolve_adaptive configured recommended agent_max fallback ≡ some w)
      × (1 ≤ w)
      × (w ≤ relay_max_stream_pull_window_size)
      × AtMost agent_max w
resolve_adaptive_bounds configured recommended agent_max fallback h =
    let (x, number, e) = resolve-some configured recommended agent_max fallback h in
    let (w, found) = clamp_number-some x (ceiling agent_max) number in
    let bounds = ceiling_bounds agent_max in
    let range : InRange (ceiling agent_max) (some w) =
      rw found at (clamp_number-InRange x (ceiling agent_max) bounds.0) in
    (w, e ∙ found, range.0, omega (arith, bounds), ceiling-AtMost agent_max w range.1)

-- A configured whole number between 1 and the agent's maximum is taken as it is.
resolve_adaptive_exact :
    (n agent_max : ℕ) (recommended fallback : Option ℕ)
    → 1 ≤ n
    → n ≤ agent_max
    → agent_max ≤ relay_max_stream_pull_window_size
    → resolve_adaptive (some (whole n)) recommended (some agent_max) fallback ≡ some n
unfolding resolve_adaptive clamp_number ceiling clamp
resolve_adaptive_exact n agent_max recommended fallback h k m = ground arith

-- An answer's window size ends between 1 and the maximum, whatever the answer holds, if the
-- fallback does.
pub normalize_window_size_bounds :
    (value : Option Json) (fallback most : ℕ)
    → 1 ≤ fallback
    → fallback ≤ most
    → (1 ≤ normalize_window_size value fallback most)
      × (normalize_window_size value fallback most ≤ most)
unfolding normalize_window_size
normalize_window_size_bounds none fallback most h k = omega arith
normalize_window_size_bounds (some null) fallback most h k = omega arith
normalize_window_size_bounds (some (bool b)) fallback most h k = omega arith
normalize_window_size_bounds (some (num x)) fallback most h k = ground arith
normalize_window_size_bounds (some (str s)) fallback most h k = omega arith
normalize_window_size_bounds (some (arr vs)) fallback most h k = omega arith
normalize_window_size_bounds (some (obj fs)) fallback most h k = omega arith
