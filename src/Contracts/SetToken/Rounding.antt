-- ===== src/Contracts/SetToken/Rounding.antt =====
-- contracts/protocol/SetToken.sol: what a stored real unit reads as, and what a new multiplier
-- leaves of the stored units.
use native.Mathlib.Nat.{div-mul-le_self, div-add-mod', mod-lt}
use set_protocol_v2_contract.Common.{
  ℕ, suc, ◌+◌, ◌*◌, ◌/◌, ◌%◌, ◌^◌, ◌<◌, ◌≤◌, ◌≡◌, Bool, ok, ap, ◌∙◌, arith,
}
use set_protocol_v2_contract.Common.Integer.{ℤ, pos}
use set_protocol_v2_contract.External.OpenZeppelin.{SignedSafeMath}
use set_protocol_v2_contract.Contracts.PreciseUnitMath.{conservative_precise_div}
use set_protocol_v2_contract.Contracts.PreciseUnitMath.Conservative.{
  conservative_precise_mul_pos, conservative_precise_div_pos,
}
use set_protocol_v2_contract.Contracts.SetToken.State.{SetToken}
use set_protocol_v2_contract.Contracts.SetToken.Units.{
  convert_real_to_virtual_unit, convert_virtual_to_real_unit, get_default_position_real_unit,
}
use set_protocol_v2_contract.Contracts.SetToken.Operations.{edit_default_position_unit}
use set_protocol_v2_contract.Contracts.SetToken.Inversion.{edit_default_position_unit_inversion}

-- Dividing by the multiplier and multiplying by it again, both rounded down.
abbrev real_of : ℕ → ℕ → ℕ
real_of n m = n * 10 ^ 18 / suc m * suc m / 10 ^ 18

real_of-bounds : (n m : ℕ) → (real_of n m ≤ n) × (n * 10 ^ 18 < (real_of n m + 1) * 10 ^ 18 + suc m)
real_of-bounds n m =
    let v = n * 10 ^ 18 / suc m in
    let a : v * suc m + (n * 10 ^ 18) % suc m ≡ n * 10 ^ 18 = div-add-mod' (n * 10 ^ 18) (suc m) in
    let a_rest : (n * 10 ^ 18) % suc m < suc m = mod-lt (n * 10 ^ 18) (omega arith) in
    (omega (arith, a, a_rest), omega (arith, a, a_rest))

module _ ⦃ssm : SignedSafeMath⦄ where
  convert_real_to_virtual_unit_pos :
      (t : SetToken) (n m : ℕ) (v : ℤ)
      → t.position_multiplier ≡ pos (suc m)
      → convert_real_to_virtual_unit t (pos n) ≡ ok v
      → (n * 10 ^ 18 < 2 ^ 255) × (v ≡ pos (n * 10 ^ 18 / suc m))
  unfolding convert_real_to_virtual_unit
  convert_real_to_virtual_unit_pos t n m v mult h =
      let e = ap (conservative_precise_div (pos n)) mult ∙ conservative_precise_div_pos n m in
      ground (arith, e)

  -- A real unit n that `editDefaultPositionUnit` stores under a positive multiplier m reads back as
  -- some r that is at most n, so that the token never reports more than was put in, and that falls
  -- short of n by less than one unit and m / 10^18 of a unit together. The read does not revert.
  pub edit_default_position_unit-reads_back :
      (is_module : ℕ → Bool) (t : SetToken) (sender c n m : ℕ) (t' : SetToken)
      → t.position_multiplier ≡ pos (suc m)
      → edit_default_position_unit is_module t sender c (pos n) ≡ ok t'
      → (r : ℕ) × (get_default_position_real_unit t' c ≡ ok (pos r))
        × (r ≤ n)
        × (n * 10 ^ 18 < (r + 1) * 10 ^ 18 + suc m)
  unfolding get_default_position_real_unit convert_virtual_to_real_unit
  edit_default_position_unit-reads_back is_module t sender c n m t' mult h =
      let (v, converts, e) =
        edit_default_position_unit_inversion is_module t sender c (pos n) t' h in
      let (fits, stored) = convert_real_to_virtual_unit_pos t n m v mult converts in
      let q = n * 10 ^ 18 / suc m in
      let below : q * suc m ≤ n * 10 ^ 18 = div-mul-le_self (n * 10 ^ 18) (suc m) in
      let written : (t'.component_positions c).virtual_unit ≡ pos q =
        ap (λ s. (s.component_positions c).virtual_unit) e ∙ ground (arith, stored) in
      let same : t'.position_multiplier ≡ pos (suc m) = ap (λ s. s.position_multiplier) e ∙ mult in
      let reads = conservative_precise_mul_pos q (suc m) in
      (
        real_of n m,
        rw (written, same) (ground (arith, reads, below, fits)),
        (real_of-bounds n m).0,
        (real_of-bounds n m).1,
      )
