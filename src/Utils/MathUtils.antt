-- ===== src/Utils/MathUtils.antt =====
-- utils/common/mathUtils.ts: fixed-point arithmetic on BigNumbers with 18 decimals.
pub mod Naturals
pub mod Rounding
use set_protocol_v2_contract.Common.{Bool, not, ◌&&◌, ◌||◌, Result, ok, false, ◌>>=◌, if◌then◌else◌}
use set_protocol_v2_contract.Common.Integer.{ℤ, pos, negsuc}
use set_protocol_v2_contract.External.Ethers.{BigNumber}
use set_protocol_v2_contract.Utils.Constants.{precise_unit, zero}

module _ ⦃bn : BigNumber⦄ where
  open bn use {add, sub, mul, div, mod', eq, lt, gt, is_zero}

  unfoldable pub precise_mul : ℤ → ℤ → Result ℤ
  precise_mul a b = div (mul a b) precise_unit

  -- `x.sub(1).div(d).add(1)` and `x.add(1).div(d).sub(1)`, which four functions write out.
  unfoldable pub sub_div_add : ℤ → ℤ → Result ℤ
  sub_div_add x d = do q ← div (sub x (pos 1)) d; ok (add q (pos 1))

  unfoldable pub add_div_sub : ℤ → ℤ → Result ℤ
  add_div_sub x d = do q ← div (add x (pos 1)) d; ok (sub q (pos 1))

  unfoldable pub precise_mul_ceil : ℤ → ℤ → Result ℤ
  precise_mul_ceil a b =
      if eq a (pos 0) || eq b (pos 0) then ok zero else sub_div_add (mul a b) precise_unit

  -- `a.gt(0) && b.gt(0) || a.lt(0) && b.lt(0)`
  unfoldable pub same_sign : ℤ → ℤ → Bool
  same_sign a b = gt a (pos 0) && gt b (pos 0) || lt a (pos 0) && lt b (pos 0)

  unfoldable pub precise_mul_ceil_int : ℤ → ℤ → Result ℤ
  precise_mul_ceil_int a b =
      if eq a (pos 0) || eq b (pos 0)
      then ok zero
      else if same_sign a b
      then sub_div_add (mul a b) precise_unit
      else add_div_sub (mul a b) precise_unit

  unfoldable pub precise_div : ℤ → ℤ → Result ℤ
  precise_div a b = div (mul a precise_unit) b

  unfoldable pub precise_div_ceil : ℤ → ℤ → Result ℤ
  precise_div_ceil a b =
      if eq a (pos 0) || eq b (pos 0) then ok zero else sub_div_add (mul a precise_unit) b

  unfoldable pub precise_div_ceil_int : ℤ → ℤ → Result ℤ
  precise_div_ceil_int a b =
      if eq a (pos 0) || eq b (pos 0)
      then ok zero
      else if same_sign a b
      then sub_div_add (mul a precise_unit) b
      else add_div_sub (mul a precise_unit) b

  -- `test && !a.mod(m).isZero()`: the remainder is taken only behind the test, since `mod` throws on
  -- a divisor that is not positive.
  unfoldable pub and_remainder : Bool → ℤ → ℤ → Result Bool
  and_remainder test a m = if test then (do r ← mod' a m; ok (not (is_zero r))) else ok false

  unfoldable pub div_down : ℤ → ℤ → Result ℤ
  unfolding and_remainder
  div_down a b = do
    result ← div a b
    below ← and_remainder (lt a (pos 0) && gt b (pos 0)) a b
    if below then ok (sub result (pos 1)) else do
      above ← and_remainder (gt a (pos 0) && lt b (pos 0)) a (mul b (negsuc 0))
      if above then ok (sub result (pos 1)) else ok result

  unfoldable pub min : ℤ → ℤ → ℤ
  min value_one value_two = if lt value_one value_two then value_one else value_two
