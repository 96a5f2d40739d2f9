-- ===== src/Contracts/PreciseUnitMath/Unsigned.antt =====
-- contracts/lib/PreciseUnitMath.sol, the functions on uint256: results, reverts and rounding.
use native.Mathlib.Nat.{mul-pos, div-le_self, div-add-mod', mod-lt}
use set_protocol_v2_contract.Common.{
  ℕ, zero, suc, refl, ◌⊎◌, inl, inr, ◌+◌, ◌-◌, ◌*◌, ◌/◌, ◌%◌, ◌^◌, ◌≤◌, ◌<◌, ◌≡◌, ok, err, reason,
  arith, sym, ◌∙◌, subst, ok_injective,
}
use set_protocol_v2_contract.External.OpenZeppelin.{SafeMath, uint_limit}
use set_protocol_v2_contract.Contracts.PreciseUnitMath.{
  precise_mul, precise_mul_ceil, precise_div, precise_div_ceil,
}

module _ ⦃sm : SafeMath⦄ where
  pub precise_mul_lem : (a b : ℕ) → a * b < uint_limit → precise_mul a b ≡ ok (a * b / 10 ^ 18)
  unfolding precise_mul
  precise_mul_lem a b h = simp (sm.mul_lem, sm.div_lem) (ground arith)

  pub precise_div_lem :
      (a b : ℕ) → 0 < b → a * 10 ^ 18 < uint_limit → precise_div a b ≡ ok (a * 10 ^ 18 / b)
  unfolding precise_div
  precise_div_lem a b k h = simp (sm.mul_lem, sm.div_lem) (ground arith)

  pub precise_mul_ceil_pos :
      (a b : ℕ)
      → 0 < a
      → 0 < b
      → a * b < uint_limit
      → precise_mul_ceil a b ≡ ok ((a * b - 1) / 10 ^ 18 + 1)
  unfolding precise_mul_ceil
  precise_mul_ceil_pos a b p q h =
      simp (sm.mul_lem, sm.sub_lem, sm.div_lem, sm.add_lem) (ground (arith, mul-pos p q))

  pub precise_div_ceil_pos :
      (a b : ℕ)
      → 0 < a
      → 0 < b
      → a * 10 ^ 18 < uint_limit
      → precise_div_ceil a b ≡ ok ((a * 10 ^ 18 - 1) / b + 1)
  unfolding precise_div_ceil
  precise_div_ceil_pos a b p q h =
      simp (sm.mul_lem, sm.sub_lem, sm.div_lem, sm.add_lem)
        (ground (arith, div-le_self (a * 10 ^ 18 - 1) b))

-- One more than the quotient of `x - 1` is the quotient of `x` rounded up.
ceil_bounds :
    (x d : ℕ) → 0 < x → 0 < d → (x ≤ ((x - 1) / d + 1) * d) × (((x - 1) / d + 1) * d < x + d)
ceil_bounds x d h k =
    let e = div-add-mod' (x - 1) d in
    let r : (x - 1) % d < d = mod-lt (x - 1) k in (grind (arith, e, r), grind (arith, e, r))

module _ ⦃sm : SafeMath⦄ where
  -- `preciseMulCeil` returns whenever the product fits in a uint256, and its result is the least n
  -- with a * b ≤ n * 10 ^ 18.
  pub precise_mul_ceil-ceils :
      (a b : ℕ)
      → a * b < uint_limit
      → (n : ℕ) × (precise_mul_ceil a b ≡ ok n)
        × (a * b ≤ n * 10 ^ 18)
        × (n * 10 ^ 18 < a * b + 10 ^ 18)
  unfolding precise_mul_ceil
  precise_mul_ceil-ceils zero b h = (0, ground arith, omega arith, omega arith)
  precise_mul_ceil-ceils (suc a) zero h = (0, ground arith, omega arith, omega arith)
  precise_mul_ceil-ceils (suc a) (suc b) h =
      let p : 0 < suc a * suc b = mul-pos {m = suc a} {n = suc b} (omega arith) (omega arith) in
      let (low, high) = ceil_bounds (suc a * suc b) (10 ^ 18) p (omega arith) in
      (
        (suc a * suc b - 1) / 10 ^ 18 + 1,
        precise_mul_ceil_pos (suc a) (suc b) (omega arith) (omega arith) h,
        low,
        high,
      )

  -- `preciseDivCeil` reverts on a zero divisor with its message; otherwise it returns whenever
  -- a * 10 ^ 18 fits in a uint256, and its result is the least n with a * 10 ^ 18 ≤ n * b.
  pub precise_div_ceil-ceils :
      (a b : ℕ)
      → a * 10 ^ 18 < uint_limit
      → ((b ≡ 0) × (precise_div_ceil a b ≡ err (reason "Cant divide by 0")))
        ⊎ ((n : ℕ) × (precise_div_ceil a b ≡ ok n)
            × (a * 10 ^ 18 ≤ n * b)
            × (n * b < a * 10 ^ 18 + b))
  unfolding precise_div_ceil
  precise_div_ceil-ceils a zero h = inl (refl, ground arith)
  precise_div_ceil-ceils zero (suc b) h = inr (0, ground arith, omega arith, omega arith)
  precise_div_ceil-ceils (suc a) (suc b) h =
      let (low, high) = ceil_bounds (suc a * 10 ^ 18) (suc b) (omega arith) (omega arith) in
      inr (
        (suc a * 10 ^ 18 - 1) / suc b + 1,
        precise_div_ceil_pos (suc a) (suc b) (omega arith) (omega arith) h,
        low,
        high,
      )

  pub precise_mul_ceil-fits : (a b n : ℕ) → precise_mul_ceil a b ≡ ok n → a * b < uint_limit
  unfolding precise_mul_ceil
  precise_mul_ceil-fits zero b n h = omega arith
  precise_mul_ceil-fits (suc a) zero n h = omega arith
  precise_mul_ceil-fits (suc a) (suc b) n h = ground (arith, sm.mul_lem (suc a) (suc b))

  -- Whatever the factors, a result that `preciseMulCeil` returns covers the product.
  pub precise_mul_ceil-covers :
      (a b n : ℕ)
      → precise_mul_ceil a b ≡ ok n
      → (a * b ≤ n * 10 ^ 18) × (n * 10 ^ 18 < a * b + 10 ^ 18)
  precise_mul_ceil-covers a b n h =
      let (m, e, low, high) = precise_mul_ceil-ceils a b (precise_mul_ceil-fits a b n h) in
      let same : m ≡ n = ok_injective (sym e ∙ h) in
      subst (λ x. (a * b ≤ x * 10 ^ 18) × (x * 10 ^ 18 < a * b + 10 ^ 18)) same (low, high)

  -- A result of `preciseMul` is the product rounded down.
  pub precise_mul-inversion :
      (a b n : ℕ) → precise_mul a b ≡ ok n → (a * b < uint_limit) × (n ≡ a * b / 10 ^ 18)
  unfolding precise_mul
  precise_mul-inversion a b n h = ground (arith, sm.mul_lem a b, sm.div_lem (a * b) (10 ^ 18))

  -- A result of `preciseDiv` is the quotient rounded down by a divisor that is not zero.
  pub precise_div-inversion :
      (a b n : ℕ)
      → precise_div a b ≡ ok n
      → (0 < b) × (a * 10 ^ 18 < uint_limit) × (n ≡ a * 10 ^ 18 / b)
  unfolding precise_div
  precise_div-inversion a b n h = ground (arith, sm.mul_lem a (10 ^ 18), sm.div_lem (a * 10 ^ 18) b)
