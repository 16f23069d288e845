-- ===== src/Trigger/Reconnect/Delay.antt =====
-- The delays of the manager, with the random factor that the code draws.
use plug_node.Base.{zero, suc, ℕ, ◌+◌, ◌*◌, ◌/◌, ◌≤◌, ◌<◌, max, arith}
use plug_node.Trigger.Reconnect.{
  Config, State, draws, jittered, exponential_delay, get_reconnect_delay_ms,
}

mul_le : (n a b : ℕ) → a ≤ b → n * a ≤ n * b
mul_le zero a b h = omega arith
mul_le (suc n) a b h = omega (arith, mul_le n a b h)

jittered_least : (ms draw : ℕ) → (8 * ms + 5) / 10 ≤ jittered ms draw
unfolding jittered
jittered_least ms draw = omega arith

jittered_most : (ms draw : ℕ) → draw < draws → jittered ms draw ≤ (12 * ms + 5) / 10
unfolding jittered
jittered_most ms draw h =
    let product : ms * draw ≤ ms * draws = mul_le ms draw draws (omega (arith, h)) in
    omega (arith, product)

exponential_delay-le : (c : Config) (s : State) → exponential_delay c s ≤ c.reconnect_max_delay_ms
unfolding exponential_delay
exponential_delay-le c s = omega arith

-- Where `Math.random()` draws below 1, a delay is at least 100 ms and four fifths of the exponential
-- delay; and it is at most six fifths of the exponential delay, or 100 ms where that is more, and the
-- same of the configured maximum. The fifths are rounded to the nearest.
pub reconnect_delay_bounds :
    (c : Config) (draw : ℕ) (s : State)
    → draw < draws
    → (100 ≤ get_reconnect_delay_ms c draw s)
      × ((8 * exponential_delay c s + 5) / 10 ≤ get_reconnect_delay_ms c draw s)
      × (get_reconnect_delay_ms c draw s ≤ max 100 ((12 * exponential_delay c s + 5) / 10))
      × (get_reconnect_delay_ms c draw s ≤ max 100 ((12 * c.reconnect_max_delay_ms + 5) / 10))
unfolding get_reconnect_delay_ms
reconnect_delay_bounds c draw s h =
    let ms = exponential_delay c s in
    let least = jittered_least ms draw in
    let most = jittered_most ms draw h in
    let capped = exponential_delay-le c s in
    (omega arith, omega (arith, least), omega (arith, most), omega (arith, most, capped))
