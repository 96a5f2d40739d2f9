-- ===== src/Utils/MathUtils/Naturals.antt =====
-- utils/common/mathUtils.ts at BigNumbers that are not negative.
use native.Mathlib.Nat.{mul-pos}
use set_protocol_v2_contract.Common.{ℕ, ◌+◌, ◌-◌, ◌*◌, ◌/◌, ◌^◌, ◌<◌, ◌≡◌, ok, arith, ◌⊎◌}
use set_protocol_v2_contract.Common.Integer.{ℤ, pos, ◌+ℤ◌, ◌-ℤ◌, quot, at_naturals}
use set_protocol_v2_contract.External.Ethers.{BigNumber}
use set_protocol_v2_contract.Utils.MathUtils.{
  precise_mul, precise_mul_ceil, precise_div, precise_div_ceil, sub_div_add,
}

module _ ⦃bn : BigNumber⦄ where
  pub precise_mul-pos : (a b : ℕ) → precise_mul (pos a) (pos b) ≡ ok (pos (a * b / 10 ^ 18))
  unfolding precise_mul
  precise_mul-pos a b = simp (bn.mul_lem, bn.div_lem, at_naturals)

  pub precise_div-pos : (a b : ℕ) → 0 < b → precise_div (pos a) (pos b) ≡ ok (pos (a * 10 ^ 18 / b))
  unfolding precise_div
  precise_div-pos a b h = simp (bn.mul_lem, bn.div_lem, at_naturals) (ground arith)

  pub sub_div_add-pos :
      (x d : ℕ) → 0 < x → 0 < d → sub_div_add (pos x) (pos d) ≡ ok (pos ((x - 1) / d + 1))
  unfolding sub_div_add ◌-ℤ◌ ◌+ℤ◌ quot
  sub_div_add-pos x d h k = simp (bn.add_lem, bn.sub_lem, bn.div_lem) (ground arith)

  pub precise_mul_ceil-pos :
      (a b : ℕ)
      → 0 < a
      → 0 < b
      → precise_mul_ceil (pos a) (pos b) ≡ ok (pos ((a * b - 1) / 10 ^ 18 + 1))
  unfolding precise_mul_ceil
  precise_mul_ceil-pos a b h k =
      simp (bn.mul_lem, bn.eq_lem, at_naturals)
        (ground (arith, sub_div_add-pos (a * b) (10 ^ 18) (mul-pos h k)))

  pub precise_mul_ceil-zero :
      (a b : ℤ) → (a ≡ pos 0) ⊎ (b ≡ pos 0) → precise_mul_ceil a b ≡ ok (pos 0)
  unfolding precise_mul_ceil
  precise_mul_ceil-zero a b h = simp bn.eq_lem (ground arith)

  pub precise_div_ceil-pos :
      (a b : ℕ)
      → 0 < a
      → 0 < b
      → precise_div_ceil (pos a) (pos b) ≡ ok (pos ((a * 10 ^ 18 - 1) / b + 1))
  unfolding precise_div_ceil
  precise_div_ceil-pos a b h k =
      simp (bn.mul_lem, bn.eq_lem, at_naturals) (ground (arith, sub_div_add-pos (a * 10 ^ 18) b))

  pub precise_div_ceil-zero :
      (a b : ℤ) → (a ≡ pos 0) ⊎ (b ≡ pos 0) → precise_div_ceil a b ≡ ok (pos 0)
  unfolding precise_div_ceil
  precise_div_ceil-zero a b h = simp bn.eq_lem (ground arith)
