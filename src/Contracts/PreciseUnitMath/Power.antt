-- ===== src/Contracts/PreciseUnitMath/Power.antt =====
-- `safePower` of contracts/lib/PreciseUnitMath.sol.
use native.Mathlib.Nat.{pow-succ', mul_assoc, one-mul, pow-zero, one-le-pow}
use set_protocol_v2_contract.Common.{
  ℕ, zero, suc, ◌*◌, ◌^◌, ◌≤◌, ◌<◌, ◌≡◌, err, reason, arith, if◌then◌else◌, ltb, inl, inr,
  Bool-cases, ltb→lt, sym, false,
}
use set_protocol_v2_contract.External.OpenZeppelin.{SafeMath, uint_limit, fits_uint}
use set_protocol_v2_contract.Contracts.PreciseUnitMath.{power_loop, safe_power}

not_ltb : (a b : ℕ) → b ≤ a → ltb a b ≡ false
not_ltb a b h = ground arith

module _ ⦃sm : SafeMath⦄ where
  power_loop_lem :
      (a left p : ℕ) → 0 < a → p < uint_limit → power_loop a left p ≡ fits_uint (p * a ^ left)
  unfolding power_loop
  power_loop_lem a zero p h k = rw (pow-zero a) (ground arith)
  power_loop_lem a (suc left) p h k =
      let e : p * a ^ suc left ≡ p * a * a ^ left =
        rw (pow-succ' a left) (sym (mul_assoc p a (a ^ left))) in
      rw (sm.mul_lem p a, e)
        (elim (Bool-cases (ltb (p * a) uint_limit)) [
          | inl fits ↦ rw fits (power_loop_lem a left (p * a) h (ltb→lt _ _ fits))
          | inr over ↦ rw (
            over,
            not_ltb (p * a * a ^ left) uint_limit
                (grows (p * a) (a ^ left) (one-le-pow left a h) over),
          )
        ])
    where
      grows : (x y : ℕ) → 1 ≤ y → ltb x uint_limit ≡ false → uint_limit ≤ x * y
      grows x y h over = grind arith

  -- For a positive base `safePower` returns the power whenever it fits in a uint256, and reverts
  -- otherwise; for a zero base it reverts with its message.
  pub safe_power_lem :
      (a pow : ℕ)
      → safe_power a pow
        ≡ (if ltb 0 a then fits_uint (a ^ pow) else err (reason "Value must be positive"))
  unfolding safe_power
  safe_power_lem zero pow = ground arith
  safe_power_lem (suc a) pow = ground (arith, power_loop_lem (suc a) pow 1, one-mul (suc a ^ pow))
