-- ===== src/Contracts/PreciseUnitMath.antt =====
-- contracts/lib/PreciseUnitMath.sol: fixed-point arithmetic on uint256 and int256. The functions
-- that the source overloads by type have `_int` behind the name of the int256 version.
pub mod Unsigned
pub mod Signed
pub mod Power
pub mod Conservative
use set_protocol_v2_contract.Common.{
  ℕ, zero, suc, ◌^◌, Bool, not, ◌&&◌, ◌||◌, Result, ok, ◌>>=◌, ◌>>◌, require, if◌then◌else◌, ltb,
  ◌==◌,
}
use set_protocol_v2_contract.Common.Integer.{ℤ, pos, negsuc, ◌-ℤ◌, quot, ltb_ℤ, eqb_ℤ, ◌*ℤ◌}
use set_protocol_v2_contract.External.OpenZeppelin.{SafeMath, SignedSafeMath, min_int, max_int}

abbrev pub precise_unit : ℕ
precise_unit = 10 ^ 18

abbrev pub precise_unit_int : ℤ
precise_unit_int = pos (10 ^ 18)

module _ ⦃sm : SafeMath⦄ where
  open sm use {add, sub, mul, div}

  unfoldable pub precise_mul : ℕ → ℕ → Result ℕ
  precise_mul a b = do div (← mul a b) precise_unit

  unfoldable pub precise_mul_ceil : ℕ → ℕ → Result ℕ
  precise_mul_ceil a b =
      if a == 0 || b == 0 then ok 0 else (do add (← div (← sub (← mul a b) 1) precise_unit) 1)

  unfoldable pub precise_div : ℕ → ℕ → Result ℕ
  precise_div a b = do div (← mul a precise_unit) b

  unfoldable pub precise_div_ceil : ℕ → ℕ → Result ℕ
  precise_div_ceil a b = do
    require (not (b == 0)) "Cant divide by 0"
    if ltb 0 a then (do add (← div (← sub (← mul a precise_unit) 1) b) 1) else ok 0

  -- The loop `for (i = 0; i < pow; i++)`, by the rounds that are left.
  unfoldable pub power_loop : ℕ → ℕ → ℕ → Result ℕ
  power_loop a zero result = ok result
  power_loop a (suc left) previous = do result ← mul previous a; power_loop a left result

  unfoldable pub safe_power : ℕ → ℕ → Result ℕ
  unfolding power_loop
  safe_power a pow = do require (ltb 0 a) "Value must be positive"; power_loop a pow 1

-- The sign bit of an int256.
abbrev is_negative : ℤ → Bool
is_negative x = ltb_ℤ x (pos 0)

-- `a ^ b < 0`: the sign bit of the bitwise xor is the xor of the sign bits.
unfoldable pub xor_is_negative : ℤ → ℤ → Bool
xor_is_negative a b = if is_negative a then not (is_negative b) else is_negative b

-- `a % b != 0` on int256: the remainder has the sign of `a`.
unfoldable pub has_remainder : ℤ → ℤ → Bool
has_remainder a b = not (eqb_ℤ (a -ℤ quot a b *ℤ b) (pos 0))

-- `x -= 1` on int256, which wraps around.
unfoldable pub decrement : ℤ → ℤ
decrement x = if eqb_ℤ x min_int then max_int else x -ℤ pos 1

module _ ⦃ssm : SignedSafeMath⦄ where
  open ssm use {mul, div}

  unfoldable pub precise_mul_int : ℤ → ℤ → Result ℤ
  precise_mul_int a b = do div (← mul a b) precise_unit_int

  unfoldable pub precise_div_int : ℤ → ℤ → Result ℤ
  precise_div_int a b = do div (← mul a precise_unit_int) b

  unfoldable pub div_down : ℤ → ℤ → Result ℤ
  div_down a b = do
    require (not (eqb_ℤ b (pos 0))) "Cant divide by 0"
    require (not (eqb_ℤ a min_int) || not (eqb_ℤ b (negsuc 0))) "Invalid input"
    result ← div a b
    if xor_is_negative a b && has_remainder a b then ok (decrement result) else ok result

  unfoldable pub conservative_precise_mul : ℤ → ℤ → Result ℤ
  unfolding div_down
  conservative_precise_mul a b = do div_down (← mul a b) precise_unit_int

  unfoldable pub conservative_precise_div : ℤ → ℤ → Result ℤ
  unfolding div_down
  conservative_precise_div a b = do div_down (← mul a precise_unit_int) b
