-- ===== src/Examples/Arithmetic.antt =====
-- The arithmetic of contracts/lib/PreciseUnitMath.sol and utils/common/mathUtils.ts at numbers.
use set_protocol_v2_contract.Common.{ℕ, ◌+◌, ◌*◌, ◌^◌, ◌≤◌, ◌<◌, ◌≡◌, ◌⊎◌, ok, err, reason, arith}
use set_protocol_v2_contract.Common.Integer.{pos, negsuc}
use set_protocol_v2_contract.Common.FloorDivision.{floor_div}
use set_protocol_v2_contract.Examples.Instances.{big_numbers, safe_math, signed_safe_math}
use set_protocol_v2_contract.Utils.MathUtils
use set_protocol_v2_contract.Utils.MathUtils.Rounding.{div_down-floor_div}
use set_protocol_v2_contract.Contracts.PreciseUnitMath
use set_protocol_v2_contract.Contracts.PreciseUnitMath.Signed.{div_down-floor}
use set_protocol_v2_contract.Contracts.PreciseUnitMath.Unsigned.{
  precise_mul_ceil-ceils, precise_div_ceil-ceils,
}
use set_protocol_v2_contract.Contracts.PreciseUnitMath.Power.{safe_power_lem}
use set_protocol_v2_contract.Agreement.PreciseMath.{
  as_big_number, uint_math_agrees, div_down-agrees,
}

-- -7 by 2
div_down-floor_example :
    PreciseUnitMath.div_down ⦃ssm = signed_safe_math⦄ (negsuc 6) (pos 2) ≡ ok (negsuc 3)
unfolding floor_div
div_down-floor_example =
    div_down-floor ⦃ssm = signed_safe_math⦄ (negsuc 6) (pos 2) (ground arith, ground arith)

div_down-floor_div_example :
    MathUtils.div_down ⦃bn = big_numbers⦄ (negsuc 6) (pos 2) ≡ ok (negsuc 3)
unfolding floor_div
div_down-floor_div_example = div_down-floor_div ⦃bn = big_numbers⦄ (negsuc 6) (pos 2)

precise_mul_ceil-ceils_example :
    (n : ℕ) × (PreciseUnitMath.precise_mul_ceil ⦃sm = safe_math⦄ 3 5 ≡ ok n)
    × (3 * 5 ≤ n * 10 ^ 18)
    × (n * 10 ^ 18 < 3 * 5 + 10 ^ 18)
precise_mul_ceil-ceils_example = precise_mul_ceil-ceils ⦃sm = safe_math⦄ 3 5 (ground arith)

precise_div_ceil-ceils_example :
    ((◌≡◌ {A = ℕ} 3 0)
      × (PreciseUnitMath.precise_div_ceil ⦃sm = safe_math⦄ 5 3 ≡ err (reason "Cant divide by 0")))
    ⊎ ((n : ℕ) × (PreciseUnitMath.precise_div_ceil ⦃sm = safe_math⦄ 5 3 ≡ ok n)
        × (5 * 10 ^ 18 ≤ n * 3)
        × (n * 3 < 5 * 10 ^ 18 + 3))
precise_div_ceil-ceils_example = precise_div_ceil-ceils ⦃sm = safe_math⦄ 5 3 (ground arith)

safe_power_lem_example : PreciseUnitMath.safe_power ⦃sm = safe_math⦄ 3 4 ≡ ok 81
safe_power_lem_example = safe_power_lem ⦃sm = safe_math⦄ 3 4

uint_math_agrees_example :
    (MathUtils.precise_mul ⦃bn = big_numbers⦄ (pos 7) (pos 2)
      ≡ as_big_number (PreciseUnitMath.precise_mul ⦃sm = safe_math⦄ 7 2))
    × (MathUtils.precise_mul_ceil ⦃bn = big_numbers⦄ (pos 7) (pos 2)
        ≡ as_big_number (PreciseUnitMath.precise_mul_ceil ⦃sm = safe_math⦄ 7 2))
    × (MathUtils.precise_div ⦃bn = big_numbers⦄ (pos 7) (pos 2)
        ≡ as_big_number (PreciseUnitMath.precise_div ⦃sm = safe_math⦄ 7 2))
    × (MathUtils.precise_div_ceil ⦃bn = big_numbers⦄ (pos 7) (pos 2)
        ≡ as_big_number (PreciseUnitMath.precise_div_ceil ⦃sm = safe_math⦄ 7 2))
uint_math_agrees_example =
    uint_math_agrees ⦃bn = big_numbers⦄ ⦃sm = safe_math⦄ 7 2 (ground arith) (ground arith)
      (ground arith)

div_down-agrees_example :
    MathUtils.div_down ⦃bn = big_numbers⦄ (pos 7) (negsuc 1)
    ≡ PreciseUnitMath.div_down ⦃ssm = signed_safe_math⦄ (pos 7) (negsuc 1)
div_down-agrees_example =
    div_down-agrees ⦃bn = big_numbers⦄ ⦃ssm = signed_safe_math⦄ (pos 7) (negsuc 1)
      (ground arith, ground arith) (λ e. ground arith) (ground arith)
