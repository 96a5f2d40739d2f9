-- ===== src/Agreement/PreciseMath.antt =====
-- utils/common/mathUtils.ts against contracts/lib/PreciseUnitMath.sol.
use set_protocol_v2_contract.Common.{
  ℕ, zero, suc, ◌*◌, ◌^◌, ◌<◌, ◌≡◌, ◌≢◌, ◌∙◌, refl, Result, ok, err, arith, false, ◌&&◌, inl, inr,
}
use set_protocol_v2_contract.Common.Integer.{ℤ, pos, negsuc, eqb_ℤ}
use set_protocol_v2_contract.External.Ethers.{BigNumber}
use set_protocol_v2_contract.External.OpenZeppelin.{SafeMath, SignedSafeMath, uint_limit, min_int}
use set_protocol_v2_contract.Utils.MathUtils
use set_protocol_v2_contract.Utils.MathUtils.Naturals.{
  precise_mul-pos, precise_div-pos, precise_mul_ceil-pos, precise_mul_ceil-zero,
  precise_div_ceil-pos, precise_div_ceil-zero,
}
use set_protocol_v2_contract.Utils.MathUtils.Rounding.{div_down-floor_div}
use set_protocol_v2_contract.Contracts.PreciseUnitMath
use set_protocol_v2_contract.Contracts.PreciseUnitMath.Unsigned.{
  precise_mul_lem, precise_div_lem, precise_mul_ceil_pos, precise_div_ceil_pos,
}
use set_protocol_v2_contract.Contracts.PreciseUnitMath.Signed.{IsInt, div_down-floor}

-- A uint256 result as the BigNumber that ethers makes of it.
abbrev pub as_big_number : Result ℕ → Result ℤ
as_big_number (ok n) = ok (pos n)
as_big_number (err e) = err e

module _ ⦃bn : BigNumber⦄ ⦃sm : SafeMath⦄ where
  pub precise_mul-agrees :
      (a b : ℕ)
      → a * b < uint_limit
      → MathUtils.precise_mul (pos a) (pos b) ≡ as_big_number (PreciseUnitMath.precise_mul a b)
  precise_mul-agrees a b h = rw (precise_mul_lem a b h) (precise_mul-pos a b)

  pub precise_div-agrees :
      (a b : ℕ)
      → 0 < b
      → a * 10 ^ 18 < uint_limit
      → MathUtils.precise_div (pos a) (pos b) ≡ as_big_number (PreciseUnitMath.precise_div a b)
  precise_div-agrees a b k h = rw (precise_div_lem a b k h) (precise_div-pos a b k)

  pub precise_mul_ceil-agrees :
      (a b : ℕ)
      → a * b < uint_limit
      → MathUtils.precise_mul_ceil (pos a) (pos b)
        ≡ as_big_number (PreciseUnitMath.precise_mul_ceil a b)
  precise_mul_ceil-agrees zero b h =
      precise_mul_ceil-zero (pos 0) (pos b) (inl refl)
      ∙ unfold PreciseUnitMath.precise_mul_ceil in refl
  precise_mul_ceil-agrees (suc a) zero h =
      precise_mul_ceil-zero (pos (suc a)) (pos 0) (inr refl)
      ∙ unfold PreciseUnitMath.precise_mul_ceil in ground arith
  precise_mul_ceil-agrees (suc a) (suc b) h =
      rw (precise_mul_ceil_pos (suc a) (suc b) (omega arith) (omega arith) h)
        (precise_mul_ceil-pos (suc a) (suc b) (omega arith) (omega arith))

  pub precise_div_ceil-agrees :
      (a b : ℕ)
      → 0 < b
      → a * 10 ^ 18 < uint_limit
      → MathUtils.precise_div_ceil (pos a) (pos b)
        ≡ as_big_number (PreciseUnitMath.precise_div_ceil a b)
  precise_div_ceil-agrees zero b k h =
      precise_div_ceil-zero (pos 0) (pos b) (inl refl)
      ∙ unfold PreciseUnitMath.precise_div_ceil in ground arith
  precise_div_ceil-agrees (suc a) b k h =
      rw (precise_div_ceil_pos (suc a) b (omega arith) k h)
        (precise_div_ceil-pos (suc a) b (omega arith) k)

  -- On uint256 values with 18 decimals whose intermediate product fits, `preciseMul`,
  -- `preciseMulCeil` and, for a divisor that is not zero, `preciseDiv` and `preciseDivCeil` of the
  -- utilities return what the functions of the library return.
  pub uint_math_agrees :
      (a b : ℕ)
      → a * b < uint_limit
      → a * 10 ^ 18 < uint_limit
      → 0 < b
      → (MathUtils.precise_mul (pos a) (pos b) ≡ as_big_number (PreciseUnitMath.precise_mul a b))
        × (MathUtils.precise_mul_ceil (pos a) (pos b)
            ≡ as_big_number (PreciseUnitMath.precise_mul_ceil a b))
        × (MathUtils.precise_div (pos a) (pos b) ≡ as_big_number (PreciseUnitMath.precise_div a b))
        × (MathUtils.precise_div_ceil (pos a) (pos b)
            ≡ as_big_number (PreciseUnitMath.precise_div_ceil a b))
  uint_math_agrees a b h k p = (
    precise_mul-agrees a b h,
    precise_mul_ceil-agrees a b h,
    precise_div-agrees a b p k,
    precise_div_ceil-agrees a b p k,
  )

module _ ⦃bn : BigNumber⦄ ⦃ssm : SignedSafeMath⦄ where
  -- On int256 values `divDown` of the utilities and of the library return the same, but for a zero
  -- divisor and for the least int256 by -1, which the library refuses.
  pub div_down-agrees :
      (a b : ℤ)
      → IsInt a
      → b ≢ pos 0
      → (eqb_ℤ a min_int && eqb_ℤ b (negsuc 0)) ≡ false
      → MathUtils.div_down a b ≡ PreciseUnitMath.div_down a b
  div_down-agrees a b h k o =
      let nz : eqb_ℤ b (pos 0) ≡ false = ground arith in
      rw (div_down-floor_div a b, div_down-floor a b h) (rw (nz, o))
