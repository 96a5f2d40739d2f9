-- ===== src/Contracts/StreamingFee/Collateral.antt =====
-- contracts/protocol/modules/StreamingFeeModule.sol: the scaled positions cover the larger supply.
use native.Mathlib.Nat.{div-mul-le_self, le_of_mul-le-mul_right, mul-le-mul_left}
use set_protocol_v2_contract.Common.{
  ℕ, ◌+◌, ◌-◌, ◌*◌, ◌/◌, ◌^◌, ◌<◌, ◌≤◌, ◌≡◌, ok, sym, ap, ◌∙◌, subst, arith, ltb, Bool-cases, inl,
  inr,
}
use set_protocol_v2_contract.Common.Integer.{pos, quot, ◌*ℤ◌, at_naturals}
use set_protocol_v2_contract.External.OpenZeppelin.{SafeMath, SignedSafeMath, SafeCast, Erc20}
use set_protocol_v2_contract.Contracts.StreamingFee.{
  World, Accrued, accrue_fee, only_valid_and_initialized_set,
}
use set_protocol_v2_contract.Contracts.StreamingFee.Accrual.{
  inflation_at, elapsed_fee, accrue_fee-Inflates,
}

-- With d + f parts in all, a supply that grows by f / d against units scaled by d.
scaled_covers :
    (supply m d f q m' : ℕ)
    → 0 < d + f
    → q * d ≤ f * supply
    → m' * (d + f) ≤ m * d
    → (supply + q) * m' ≤ supply * m
scaled_covers supply m d f q m' some minted scaled =
    let grown : (supply + q) * d ≤ supply * (d + f) = omega (arith, minted) in
    let one : (supply + q) * (m' * (d + f)) ≤ (supply + q) * (m * d) =
      mul-le-mul_left (supply + q) scaled in
    let two : m * ((supply + q) * d) ≤ m * (supply * (d + f)) = mul-le-mul_left m grown in
    let all : (supply + q) * m' * (d + f) ≤ supply * m * (d + f) = omega (arith, one, two) in
    le_of_mul-le-mul_right all some

inflation_covers :
    (supply m f : ℕ)
    → f < 10 ^ 18
    → (supply + inflation_at supply f) * (m * (10 ^ 18 - f) / 10 ^ 18) ≤ supply * m
inflation_covers supply m f h =
    let d = 10 ^ 18 - f in
    let all : d + f ≡ 10 ^ 18 = omega arith in
    scaled_covers supply m d f (inflation_at supply f) (m * d / 10 ^ 18) (omega arith)
      (div-mul-le_self (f * supply) d)
      (subst (λ x. m * d / 10 ^ 18 * x ≤ m * d) (sym all) (div-mul-le_self (m * d) (10 ^ 18)))

module _ (this : ℕ) ⦃sm : SafeMath⦄ ⦃ssm : SignedSafeMath⦄ ⦃sc : SafeCast⦄ ⦃erc20 : Erc20⦄ where
  -- When `accrueFee` succeeds on a token whose multiplier is not negative, the new multiplier is not
  -- negative, and supply times multiplier does not grow: the shares that were minted are covered by
  -- the units that were taken off, whatever the time elapsed, the fee and the protocol's share.
  pub accrue_fee-covers :
      (w : World) (now set_token : ℕ) (a : Accrued) (m : ℕ)
      → (w.tokens set_token).position_multiplier ≡ pos m
      → accrue_fee this w now set_token ≡ ok a
      → (m' : ℕ) × ((a.world.tokens set_token).position_multiplier ≡ pos m')
        × ((a.world.tokens set_token).ledger.total_supply * m'
            ≤ (w.tokens set_token).ledger.total_supply * m)
  unfolding accrue_fee only_valid_and_initialized_set
  accrue_fee-covers w now set_token a m mult h =
      elim (Bool-cases (ltb 0 (w.fee_states set_token).streaming_fee_percentage)) [
        | inr none ↦ (m, ground arith, ground arith)
        | inl some ↦
            let i = (accrue_fee-Inflates this w now set_token a (ground arith) h).0 in
            let f = elapsed_fee (w.fee_states set_token) now in
            (
              m * (10 ^ 18 - f) / 10 ^ 18,
              i.multiplier
                  ∙ ap (λ x. quot (x *ℤ pos (10 ^ 18 - f)) (pos (10 ^ 18))) mult
                  ∙ simp at_naturals,
              rw i.supply
                  (inflation_covers (w.tokens set_token).ledger.total_supply m f i.below_all),
            )
      ]
