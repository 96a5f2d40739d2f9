-- ===== src/Contracts/PreciseUnitMath/Signed.antt =====
-- The functions on int256 of contracts/lib/PreciseUnitMath.sol.
use native.Mathlib.Nat.{div-add-mod', div-le_self, div-lt_self, div-one, div-zero}
use set_protocol_v2_contract.Common.{
  zero, suc, ◌/◌, ◌<◌, ◌≡◌, ◌≢◌, ok, err, arith, if◌then◌else◌, reason, false, true, Bool-cases,
  ◌&&◌, ◌⊎◌, inl, inr,
}
use set_protocol_v2_contract.Common.Integer.{ℤ, pos, negsuc, ◌-ℤ◌, quot, ◌≤ℤ◌, eqb_ℤ}
use set_protocol_v2_contract.Common.FloorDivision.{
  floor_div, adjusts, quot-floor_div, neg_mul, neg_mul_negsuc,
}
use set_protocol_v2_contract.External.OpenZeppelin.{SignedSafeMath, min_int, max_int}
use set_protocol_v2_contract.Contracts.PreciseUnitMath.{
  div_down, xor_is_negative, has_remainder, decrement,
}

-- The values of the type int256.
abbrev pub IsInt : ℤ → Type 0
IsInt a = (min_int ≤ℤ a) × (a ≤ℤ max_int)

-- The test of the source on the sign bits and the remainder.
adjusts_lem : (a b : ℤ) → b ≢ pos 0 → (xor_is_negative a b && has_remainder a b) ≡ adjusts a b
unfolding xor_is_negative has_remainder adjusts quot ◌-ℤ◌
adjusts_lem (pos a) (pos b) h = ground arith
adjusts_lem (pos a) (negsuc b) h =
    rw (neg_mul_negsuc (a / suc b) b) (ground (arith, div-add-mod' a (suc b)))
adjusts_lem (negsuc a) (pos b) h =
    rw (neg_mul (suc a / b) b) (ground (arith, div-add-mod' (suc a) b))
adjusts_lem (negsuc a) (negsuc b) h = ground arith

-- A quotient of int256 values is an int256, but for the least one by -1.
quot-IsInt : (a b : ℤ) → IsInt a → b ≢ pos 0 → (a ≢ min_int) ⊎ (b ≢ negsuc 0) → IsInt (quot a b)
unfolding quot
quot-IsInt (pos a) (pos b) h k o = ground (arith, div-le_self a b)
quot-IsInt (pos a) (negsuc b) h k o = ground (arith, div-le_self a (suc b))
quot-IsInt (negsuc a) (pos b) h k o = ground (arith, div-le_self (suc a) b)
quot-IsInt (negsuc a) (negsuc zero) h k o = ground (arith, div-one (suc a))
quot-IsInt (negsuc a) (negsuc (suc b)) h k o =
    let less : suc a / suc (suc b) < suc a = div-lt_self (omega arith) (omega arith) in
    ground (arith, less)

-- Where the correction is made the quotient is not the least int256, so `result -= 1` does not wrap.
decrement_lem : (a b : ℤ) → IsInt a → adjusts a b ≡ true → decrement (quot a b) ≡ quot a b -ℤ pos 1
unfolding adjusts decrement quot
decrement_lem (pos a) (pos b) h k = cc
decrement_lem (pos a) (negsuc b) h k = ground (arith, div-le_self a (suc b))
decrement_lem (negsuc a) (pos zero) h k = ground (arith, div-zero (suc a))
decrement_lem (negsuc a) (pos (suc zero)) h k = ground arith
decrement_lem (negsuc a) (pos (suc (suc b))) h k =
    let less : suc a / suc (suc b) < suc a = div-lt_self (omega arith) (omega arith) in
    ground (arith, less)
decrement_lem (negsuc a) (negsuc b) h k = cc

not_both :
    (a b : ℤ) → (eqb_ℤ a min_int && eqb_ℤ b (negsuc 0)) ≡ false → (a ≢ min_int) ⊎ (b ≢ negsuc 0)
not_both a b h = elim (Bool-cases (eqb_ℤ a min_int)) [
  | inl least ↦ inr (λ e. ground arith)
  | inr other ↦ inl (λ e. ground arith)
]

module _ ⦃ssm : SignedSafeMath⦄ where
  -- On int256 values `divDown` returns the quotient rounded down, with no wrap-around; it reverts
  -- with its messages on a zero divisor, and on the least int256 by -1.
  pub div_down-floor :
      (a b : ℤ)
      → IsInt a
      → div_down a b ≡ (
          if eqb_ℤ b (pos 0)
          then err (reason "Cant divide by 0")
          else if eqb_ℤ a min_int && eqb_ℤ b (negsuc 0)
          then err (reason "Invalid input")
          else ok (floor_div a b))
  unfolding div_down
  div_down-floor a b h = elim (Bool-cases (eqb_ℤ b (pos 0))) [
    | inl zero_divisor ↦ rw zero_divisor
    | inr other ↦ elim (Bool-cases (eqb_ℤ a min_int && eqb_ℤ b (negsuc 0))) [
      | inl least ↦ ground arith
      | inr more ↦
          let k : b ≢ pos 0 = λ e. ground arith in
          let o : (a ≢ min_int) ⊎ (b ≢ negsuc 0) = not_both a b more in
          ground (
            arith,
            ssm.div_lem a b,
            adjusts_lem a b k,
            quot-floor_div a b k,
            quot-IsInt a b h k o,
            decrement_lem a b h,
          )
    ]
  ]
