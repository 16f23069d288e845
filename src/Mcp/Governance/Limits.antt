-- ===== src/Mcp/Governance/Limits.antt =====
-- mcp/governance.ts: how many rows a call may read.
use Prim.Native.String.{String}
use native.Mathlib.Nat.{div-mul-le_self, le_of_mul-le-mul_right, zero-lt-suc}
use plug_node.Base.{
  ℕ, suc, ◌*◌, ◌/◌, ◌≤◌, ◌≡◌, max, min, false, Option, none, some, arith, ltb, subst, sym,
}
use plug_node.Values.Number.{Number, nan, infinity, neg_infinity, fraction, negative, floor}
use plug_node.Values.Json.{Json, Fields}
use plug_node.Mcp.Types.{Capability}
use plug_node.Mcp.Governance.{
  limit_value, execution_max, cap_by, resolve_effective_max_rows, exceeds, accepted,
  enforce_governance,
}

cap_by-le : (o : Option Number) (n : ℕ) → cap_by o n ≤ n
cap_by-le none n = omega arith
cap_by-le (some nan) n = omega arith
cap_by-le (some infinity) n = omega arith
cap_by-le (some neg_infinity) n = omega arith
cap_by-le (some (fraction k d)) n = ground arith
cap_by-le (some (negative k d)) n = omega arith

-- The number of rows is at least 1, and exceeds neither the governance's maximum nor that of the
-- capability's execution, where these are at least 1.
pub resolve_effective_max_rows_bounds :
    (to_number : Json → Number) (c : Capability) (params : Fields)
    → 1 ≤ c.governance.max_rows
    → 1 ≤ execution_max c
    → (1 ≤ resolve_effective_max_rows to_number c params)
      × (resolve_effective_max_rows to_number c params ≤ c.governance.max_rows)
      × (resolve_effective_max_rows to_number c params ≤ execution_max c)
unfolding resolve_effective_max_rows
resolve_effective_max_rows_bounds to_number c params h k =
    let most = min c.governance.max_rows (execution_max c) in
    let capped = cap_by-le (limit_value to_number params) most in
    (omega arith, omega (arith, capped), omega (arith, capped))

-- A product that is not exceeded bounds the quotient.
quotient-le : (n d most : ℕ) → n ≤ most * suc d → n / suc d ≤ most
quotient-le n d most h =
    le_of_mul-le-mul_right {k = suc d} (omega (arith, h, div-mul-le_self n (suc d))) (zero-lt-suc d)

-- A call that governance accepts, with a limit that is a positive number, reads as many whole rows as
-- the limit says, at least 1, unless the execution allows fewer: the governance's maximum refuses a
-- call, and never shortens it.
pub enforce_governance-limit :
    (trim : String → String) (to_number : Json → Number) (c : Capability) (params : Fields)
    (n d : ℕ)
    → enforce_governance trim to_number c params ≡ accepted
    → limit_value to_number params ≡ some (fraction n d)
    → 1 ≤ n
    → resolve_effective_max_rows to_number c params ≡ max 1 (min (execution_max c) (floor n d))
unfolding enforce_governance resolve_effective_max_rows
enforce_governance-limit trim to_number c params n d taken limit positive =
    let kept : exceeds (limit_value to_number params) c.governance.max_rows ≡ false =
      ground (arith, taken) in
    let small : ltb (c.governance.max_rows * suc d) n ≡ false =
      subst (λ o. exceeds o c.governance.max_rows ≡ false) limit kept in
    let fits : n / suc d ≤ c.governance.max_rows =
      quotient-le n d c.governance.max_rows (ground (arith, small)) in
    subst
      (λ o.
        max 1 (cap_by o (min c.governance.max_rows (execution_max c)))
        ≡ max 1 (min (execution_max c) (n / suc d)))
      (sym limit) (ground (arith, fits, positive))
