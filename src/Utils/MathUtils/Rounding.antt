-- ===== src/Utils/MathUtils/Rounding.antt =====
-- utils/common/mathUtils.ts at BigNumbers of any sign: which way each function rounds.
use set_protocol_v2_contract.Common.{
  zero, suc, ◌≡◌, ◌≢◌, ok, err, fault, arith, if◌then◌else◌, ◌∙◌, ap, sym, inl, inr, Bool-cases,
}
use set_protocol_v2_contract.Common.Integer.{ℤ, pos, negsuc, ◌-ℤ◌, ◌*ℤ◌, quot, euclid_mod, eqb_ℤ}
use set_protocol_v2_contract.Common.FloorDivision.{floor_div, adjusts, quot-floor_div}
use set_protocol_v2_contract.External.Ethers.{BigNumber, big_number}
use set_protocol_v2_contract.Utils.MathUtils.{div_down}

module _ ⦃bn : BigNumber⦄ where
  -- The two guarded tests together find where the quotient towards zero is one too high.
  div_down-adjusts :
      (a b : ℤ)
      → b ≢ pos 0
      → div_down a b ≡ ok (if adjusts a b then quot a b -ℤ pos 1 else quot a b)
  unfolding div_down adjusts euclid_mod ◌*ℤ◌
  div_down-adjusts (pos a) (pos zero) h = simp big_number (ground arith)
  div_down-adjusts (pos a) (pos (suc b)) h = simp big_number (ground arith)
  div_down-adjusts (pos a) (negsuc b) h = simp big_number (ground arith)
  div_down-adjusts (negsuc a) (pos b) h = simp big_number (ground arith)
  div_down-adjusts (negsuc a) (negsuc b) h = simp big_number (ground arith)

  -- `divDown` returns the quotient rounded down, for every dividend and every divisor but 0, where
  -- it throws.
  pub div_down-floor_div :
      (a b : ℤ) → div_down a b ≡ (if eqb_ℤ b (pos 0) then err fault else ok (floor_div a b))
  div_down-floor_div a b = elim (Bool-cases (eqb_ℤ b (pos 0))) [
    | inl zero_divisor ↦ unfold div_down in simp big_number (rw zero_divisor)
    | inr other ↦
        let h : b ≢ pos 0 = λ e. ground arith in
        rw other (div_down-adjusts a b h ∙ ap ok (sym (quot-floor_div a b h)))
  ]
