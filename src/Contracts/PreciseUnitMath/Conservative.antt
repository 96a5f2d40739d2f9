-- ===== src/Contracts/PreciseUnitMath/Conservative.antt =====
-- `conservativePreciseMul` and `conservativePreciseDiv` of contracts/lib/PreciseUnitMath.sol at
-- values that are not negative.
use set_protocol_v2_contract.Common.{
  ℕ, suc, ◌-◌, ◌*◌, ◌/◌, ◌^◌, ◌<◌, ◌≡◌, ok, err, fault, arith, if◌then◌else◌, ltb, ◌∙◌, false,
  Bool-cases, inl, inr, Result-cases,
}
use set_protocol_v2_contract.Common.Integer.{ℤ, pos, negsuc, ◌*ℤ◌, at_naturals, neg, ltb_ℤ}
use set_protocol_v2_contract.Common.FloorDivision.{floor_div}
use set_protocol_v2_contract.External.OpenZeppelin.{SignedSafeMath, fits_int}
use set_protocol_v2_contract.Contracts.PreciseUnitMath.{
  conservative_precise_mul, conservative_precise_div, div_down,
}
use set_protocol_v2_contract.Contracts.PreciseUnitMath.Signed.{IsInt, div_down-floor}

module _ ⦃ssm : SignedSafeMath⦄ where
  div_down_pos : (a b : ℕ) → a < 2 ^ 255 → div_down (pos a) (pos (suc b)) ≡ ok (pos (a / suc b))
  unfolding floor_div
  div_down_pos a b h =
      let fits : IsInt (pos a) = (ground arith, ground arith) in
      div_down-floor (pos a) (pos (suc b)) fits ∙ ground arith

  pub conservative_precise_mul_pos :
      (a b : ℕ)
      → conservative_precise_mul (pos a) (pos b)
        ≡ (if ltb (a * b) (2 ^ 255) then ok (pos (a * b / 10 ^ 18)) else err fault)
  unfolding conservative_precise_mul
  conservative_precise_mul_pos a b =
      simp (ssm.mul_lem, at_naturals)
        (elim (Bool-cases (ltb (a * b) (2 ^ 255))) [
          | inl fits ↦ ground (arith, div_down_pos (a * b) (10 ^ 18 - 1))
          | inr over ↦ ground arith
        ])

  pub conservative_precise_div_pos :
      (a b : ℕ)
      → conservative_precise_div (pos a) (pos (suc b))
        ≡ (if ltb (a * 10 ^ 18) (2 ^ 255) then ok (pos (a * 10 ^ 18 / suc b)) else err fault)
  unfolding conservative_precise_div
  conservative_precise_div_pos a b =
      simp (ssm.mul_lem, at_naturals)
        (elim (Bool-cases (ltb (a * 10 ^ 18) (2 ^ 255))) [
          | inl fits ↦ ground (arith, div_down_pos (a * 10 ^ 18) b)
          | inr over ↦ ground arith
        ])

  -- A negative factor gives no positive product.
  pub conservative_precise_mul_negsuc :
      (a b : ℕ) (r : ℤ)
      → conservative_precise_mul (pos a) (negsuc b) ≡ ok r
      → ltb_ℤ (pos 0) r ≡ false
  unfolding conservative_precise_mul floor_div ◌*ℤ◌
  conservative_precise_mul_negsuc a b r h = elim (Result-cases (fits_int (neg (a * suc b)))) [
    | inr (y, e) ↦ absurd (ground (arith, ssm.mul_lem (pos a) (negsuc b)))
    | inl (x, e) ↦
        let same : x ≡ neg (a * suc b) = ground arith in
        let fits : IsInt (neg (a * suc b)) = (ground arith, ground arith) in
        let floors = div_down-floor (neg (a * suc b)) (pos (10 ^ 18)) fits in
        let q : ok (floor_div (neg (a * suc b)) (pos (10 ^ 18))) ≡ ok r =
          ground (arith, floors, ssm.mul_lem (pos a) (negsuc b)) in
        ground arith
  ]
