-- ===== src/Agreement/StreamingFee.antt =====
-- utils/common/feeModuleUtils.ts against contracts/protocol/modules/StreamingFeeModule.sol.
use set_protocol_v2_contract.Common.{ℕ, ◌+◌, ◌^◌, ◌<◌, ◌≤◌, ◌≡◌, ok, none, sym, ap, ◌∙◌, arith}
use set_protocol_v2_contract.Common.Integer.{ℤ, pos, pos_sub, at_naturals}
use set_protocol_v2_contract.External.Ethers.{BigNumber}
use set_protocol_v2_contract.External.OpenZeppelin.{SafeMath, SignedSafeMath, SafeCast, Erc20}
use set_protocol_v2_contract.Utils.Types.{Address, StreamingFeeState}
use set_protocol_v2_contract.Utils.FeeModuleUtils.{
  get_streaming_fee, get_streaming_fee_inflation_amount, accrual_rate,
}
use set_protocol_v2_contract.Contracts.StreamingFee.{World, FeeState, Accrued, accrue_fee}
use set_protocol_v2_contract.Contracts.StreamingFee.Accrual.{
  accrue_fee-Inflates, elapsed_fee, inflation_at,
}

-- The answer of the contract's `feeStates` as the bindings give it; addresses have a text.
abbrev pub as_streaming_fee_state : (ℕ → Address) → FeeState → StreamingFeeState
as_streaming_fee_state address s = record {
  fee_recipient = address s.fee_recipient;
  streaming_fee_percentage = pos s.streaming_fee_percentage;
  max_streaming_fee_percentage = pos s.max_streaming_fee_percentage;
  last_streaming_fee_timestamp = pos s.last_streaming_fee_timestamp;
}

module _ ⦃bn : BigNumber⦄ where
  get_streaming_fee-elapsed_fee :
      (address : ℕ → Address) (s : FeeState) (set_token : Address) (now : ℕ)
      → s.last_streaming_fee_timestamp ≤ now
      → get_streaming_fee
          (λ _. ok (as_streaming_fee_state address s))
          set_token
          (pos s.last_streaming_fee_timestamp)
          (pos now)
          none
        ≡ ok (pos (elapsed_fee s now))
  unfolding get_streaming_fee accrual_rate
  get_streaming_fee-elapsed_fee address s set_token now h =
      simp (bn.sub_lem, bn.mul_lem, bn.div_lem)
        (rw (pos_sub now s.last_streaming_fee_timestamp h) (simp at_naturals (ground arith)))

  get_inflation_amount-inflation_at :
      (f supply : ℕ)
      → f < 10 ^ 18
      → get_streaming_fee_inflation_amount (pos f) (pos supply) ≡ ok (pos (inflation_at supply f))
  unfolding get_streaming_fee_inflation_amount
  get_inflation_amount-inflation_at f supply h =
      simp (bn.sub_lem, bn.mul_lem, bn.div_lem)
        (rw (pos_sub (10 ^ 18) f (ground arith)) (simp at_naturals (ground arith)))

module _ ⦃bn : BigNumber⦄ (this : ℕ) ⦃sm : SafeMath⦄ ⦃ssm : SignedSafeMath⦄ ⦃sc : SafeCast⦄
    ⦃erc20 : Erc20⦄ where
  -- When `accrueFee` succeeds on a token whose fee is not zero, `getStreamingFee` of the utilities,
  -- asked for the state before, the last accrual and the time of the call, returns some fee, and
  -- `getStreamingFeeInflationAmount` of that fee and the supply before returns just what the
  -- manager and the protocol were minted together, which is what the supply grew by.
  pub accrue_fee-predicted :
      (address : ℕ → Address) (w : World) (now set_token : ℕ) (a : Accrued)
      → 0 < (w.fee_states set_token).streaming_fee_percentage
      → accrue_fee this w now set_token ≡ ok a
      → (fee : ℤ) × (get_streaming_fee
            (λ _. ok (as_streaming_fee_state address (w.fee_states set_token)))
            (address set_token)
            (pos (w.fee_states set_token).last_streaming_fee_timestamp)
            (pos now)
            none
          ≡ ok fee)
        × (get_streaming_fee_inflation_amount fee (pos (w.tokens set_token).ledger.total_supply)
            ≡ ok (pos (a.manager_fee + a.protocol_fee)))
        × ((a.world.tokens set_token).ledger.total_supply
            ≡ (w.tokens set_token).ledger.total_supply + (a.manager_fee + a.protocol_fee))
  accrue_fee-predicted address w now set_token a positive h =
      let i = (accrue_fee-Inflates this w now set_token a positive h).0 in
      let s = w.fee_states set_token in
      let supply = (w.tokens set_token).ledger.total_supply in
      (
        pos (elapsed_fee s now),
        get_streaming_fee-elapsed_fee address s (address set_token) now i.not_early,
        get_inflation_amount-inflation_at (elapsed_fee s now) supply i.below_all
            ∙ ap (λ x. ok (pos x)) (sym i.minted),
        i.supply ∙ ap (λ x. supply + x) (sym i.minted),
      )
