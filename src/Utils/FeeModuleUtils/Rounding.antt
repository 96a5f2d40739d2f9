-- ===== src/Utils/FeeModuleUtils/Rounding.antt =====
-- utils/common/feeModuleUtils.ts: which way `getPostFeePositionUnits` rounds.
use native.Mathlib.Nat.{mul-pos}
use set_protocol_v2_contract.Common.{
  zero, suc, ℕ, ◌-◌, ◌*◌, ◌/◌, ◌^◌, ◌<◌, ◌≤◌, ◌≡◌, ok, arith, inl, inr, Bool-cases, List, [], ◌∷◌,
  map, refl, ◌==◌,
}
use set_protocol_v2_contract.Common.Integer.{ℤ, pos, negsuc, ◌-ℤ◌, ◌*ℤ◌, ◌+ℤ◌, quot, pos_sub, neg}
use set_protocol_v2_contract.Common.FloorDivision.{floor_div}
use set_protocol_v2_contract.External.Ethers.{BigNumber}
use set_protocol_v2_contract.Utils.MathUtils.{precise_mul_ceil_int, same_sign, add_div_sub}
use set_protocol_v2_contract.Utils.MathUtils.Naturals.{precise_mul-pos}
use set_protocol_v2_contract.Utils.FeeModuleUtils.{post_fee_unit, get_post_fee_position_units}

-- The unit that is left of 100% - f, rounded down.
abbrev pub left_of : ℕ → ℤ → ℤ
left_of f unit = floor_div (unit *ℤ pos (10 ^ 18 - f)) (pos (10 ^ 18))

neg_pos : (x : ℕ) → 0 < x → neg x ≡ negsuc (x - 1)
neg_pos x h = ground arith

module _ ⦃bn : BigNumber⦄ where
  add_div_sub-neg :
      (x : ℕ) → 0 < x → add_div_sub (neg x) (pos (10 ^ 18)) ≡ ok (negsuc ((x - 1) / 10 ^ 18))
  unfolding add_div_sub ◌+ℤ◌ ◌-ℤ◌ quot
  add_div_sub-neg zero h = absurd (ground arith)
  add_div_sub-neg (suc zero) h = simp (bn.add_lem, bn.sub_lem, bn.div_lem) (ground arith)
  add_div_sub-neg (suc (suc x)) h = simp (bn.add_lem, bn.sub_lem, bn.div_lem) (ground arith)

  post_fee_unit-left_of :
      (unit : ℤ) (f : ℕ) → f ≤ 10 ^ 18 → post_fee_unit (pos f) unit ≡ ok (left_of f unit)
  unfolding post_fee_unit precise_mul_ceil_int same_sign floor_div ◌*ℤ◌
  post_fee_unit-left_of (pos n) f h =
      simp (bn.sub_lem, bn.gte_lem)
        (rw (pos_sub (10 ^ 18) f h) (ground (arith, precise_mul-pos n (10 ^ 18 - f))))
  post_fee_unit-left_of (negsuc n) f h = elim (Bool-cases (10 ^ 18 - f == 0)) [
    | inl all ↦
        let e : 10 ^ 18 - f ≡ 0 = ground arith in
        simp (bn.sub_lem, bn.gte_lem, bn.eq_lem) (rw (pos_sub (10 ^ 18) f h, e) (ground arith))
    | inr some ↦
        let d = 10 ^ 18 - f in
        let p : 0 < suc n * d = mul-pos {m = suc n} {n = d} (omega arith) (ground arith) in
        simp (bn.sub_lem, bn.gte_lem, bn.eq_lem, bn.mul_lem, bn.gt_lem, bn.lt_lem)
          (rw (pos_sub (10 ^ 18) f h)
            (ground (arith, add_div_sub-neg (suc n * d) p, neg_pos (suc n * d) p)))
  ]

  -- For an inflation f of at most 100%, `getPostFeePositionUnits` gives every unit times 100% - f,
  -- rounded down also where the unit is negative: a debt is never rounded to less.
  pub get_post_fee_position_units-left_of :
      (units : List ℤ) (f : ℕ)
      → f ≤ 10 ^ 18
      → get_post_fee_position_units units (pos f) ≡ ok (map (left_of f) units)
  unfolding get_post_fee_position_units
  get_post_fee_position_units-left_of [] f h = refl
  get_post_fee_position_units-left_of (unit ∷ units) f h =
      rw (post_fee_unit-left_of unit f h, get_post_fee_position_units-left_of units f h)
