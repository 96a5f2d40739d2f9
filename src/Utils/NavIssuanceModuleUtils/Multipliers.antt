-- ===== src/Utils/NavIssuanceModuleUtils/Multipliers.antt =====
-- utils/common/navIssuanceModuleUtils.ts: the multipliers after an issuance and a redemption.
use native.Mathlib.Nat.{
  div-mul-le_self, div-add-mod', mod-lt, le_of_mul-le-mul_right, mul-le-mul_left,
}
use set_protocol_v2_contract.Common.{
  ℕ, zero, suc, ◌+◌, ◌-◌, ◌*◌, ◌/◌, ◌%◌, ◌^◌, ◌<◌, ◌≤◌, ◌≡◌, ok, arith, inl, refl,
}
use set_protocol_v2_contract.Common.Integer.{pos, pos_sub, pos_add}
use set_protocol_v2_contract.External.Ethers.{BigNumber}
use set_protocol_v2_contract.Utils.MathUtils.{precise_div_ceil}
use set_protocol_v2_contract.Utils.MathUtils.Naturals.{
  precise_mul-pos, precise_div-pos, precise_div_ceil-pos, precise_div_ceil-zero,
}
use set_protocol_v2_contract.Utils.NavIssuanceModuleUtils.{
  get_expected_issue_position_multiplier, get_expected_redeem_position_multiplier,
}

-- A multiplier scaled by d / K, where d / K is at most previous / current.
scaled-bound :
    (m previous current d K m' : ℕ)
    → 0 < K
    → m' * K ≤ m * d
    → d * current ≤ previous * K
    → current * m' ≤ previous * m
scaled-bound m previous current d K m' some scaled bounded =
    let one : current * (m' * K) ≤ current * (m * d) = mul-le-mul_left current scaled in
    let two : m * (d * current) ≤ m * (previous * K) = mul-le-mul_left m bounded in
    let all : current * m' * K ≤ previous * m * K = omega (arith, one, two) in
    le_of_mul-le-mul_right all some

module _ ⦃bn : BigNumber⦄ where
  -- The inflation, rounded up.
  inflation-bounds :
      (grown current : ℕ)
      → grown ≤ current
      → 0 < current
      → (q : ℕ) × (precise_div_ceil (pos grown) (pos current) ≡ ok (pos q))
        × (grown * 10 ^ 18 ≤ q * current)
        × (q ≤ 10 ^ 18)
  inflation-bounds zero current h k =
      (0, precise_div_ceil-zero (pos 0) (pos current) (inl refl), omega arith, omega arith)
  inflation-bounds (suc grown) current h k =
      let x = suc grown * 10 ^ 18 - 1 in
      let e : x / current * current + x % current ≡ x = div-add-mod' x current in
      let r : x % current < current = mod-lt x k in
      let most : x / current * current < 10 ^ 18 * current = grind (arith, e) in
      (
        x / current + 1,
        precise_div_ceil-pos (suc grown) current (omega arith) k,
        grind (arith, e, r),
        lt_of_mul (x / current) (10 ^ 18) current most,
      )
    where
      lt_of_mul : (a b c : ℕ) → a * c < b * c → a + 1 ≤ b
      lt_of_mul a b c l = grind arith

  -- For an issuance from one supply to a larger one, the expected multiplier exists, and supply
  -- times multiplier does not grow.
  pub get_expected_issue_position_multiplier-bound :
      (m previous current : ℕ)
      → previous ≤ current
      → 0 < current
      → (m' : ℕ) × (get_expected_issue_position_multiplier (pos m) (pos previous) (pos current)
          ≡ ok (pos m'))
        × (current * m' ≤ previous * m)
  unfolding get_expected_issue_position_multiplier
  get_expected_issue_position_multiplier-bound m previous current h k =
      let (q, found, covers, most) =
        inflation-bounds (current - previous) current (omega arith) k in
      let d = 10 ^ 18 - q in
      (
        m * d / 10 ^ 18,
        simp bn.sub_lem (
            rw (pos_sub current previous h, found, pos_sub (10 ^ 18) q most) (precise_mul-pos m d)),
        scaled-bound m previous current d (10 ^ 18) (m * d / 10 ^ 18) (omega arith)
            (div-mul-le_self (m * d) (10 ^ 18)) (grind (arith, covers, most)),
      )

  -- For a redemption from one supply to a smaller one that is not zero, the expected multiplier
  -- exists, and supply times multiplier does not grow.
  pub get_expected_redeem_position_multiplier-bound :
      (m previous current : ℕ)
      → current ≤ previous
      → 0 < current
      → (m' : ℕ) × (get_expected_redeem_position_multiplier (pos m) (pos previous) (pos current)
          ≡ ok (pos m'))
        × (current * m' ≤ previous * m)
  unfolding get_expected_redeem_position_multiplier
  get_expected_redeem_position_multiplier-bound m previous current h k =
      let q = (previous - current) * 10 ^ 18 / current in
      let d = 10 ^ 18 + q in
      let below : q * current ≤ (previous - current) * 10 ^ 18 =
        div-mul-le_self ((previous - current) * 10 ^ 18) current in
      (
        m * d / 10 ^ 18,
        simp (bn.sub_lem, bn.add_lem)
            (rw
              (
                pos_sub previous current h,
                precise_div-pos (previous - current) current k,
                pos_add (10 ^ 18) q,
              )
              (precise_mul-pos m d)),
        scaled-bound m previous current d (10 ^ 18) (m * d / 10 ^ 18) (omega arith)
            (div-mul-le_self (m * d) (10 ^ 18)) (grind (arith, below)),
      )
