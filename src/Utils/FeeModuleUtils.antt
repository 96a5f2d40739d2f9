-- ===== src/Utils/FeeModuleUtils.antt =====
-- utils/common/feeModuleUtils.ts: what a streaming fee should accrue, mint and leave.
pub mod Rounding
use set_protocol_v2_contract.Common.{
  Option, none, some, List, [], ◌∷◌, Result, ok, ◌>>=◌, if◌then◌else◌,
}
use set_protocol_v2_contract.Common.Integer.{ℤ, pos}
use set_protocol_v2_contract.External.Ethers.{BigNumber}
use set_protocol_v2_contract.Utils.Constants.{precise_unit, one_year_in_seconds}
use set_protocol_v2_contract.Utils.Types.{Address, StreamingFeeState}
use set_protocol_v2_contract.Utils.MathUtils.{precise_mul, precise_mul_ceil_int}

-- `streamingFee ? streamingFee : feeState.streamingFeePercentage`: an object is always true.
unfoldable pub accrual_rate : Option ℤ → StreamingFeeState → ℤ
accrual_rate (some streaming_fee) fee_state = streaming_fee
accrual_rate none fee_state = fee_state.streaming_fee_percentage

module _ ⦃bn : BigNumber⦄ where
  open bn use {sub, mul, div, gte}

  -- `feeModule.feeStates` is a call of the contract.
  unfoldable pub get_streaming_fee :
      (Address → Result StreamingFeeState) → Address → ℤ → ℤ → Option ℤ → Result ℤ
  unfolding accrual_rate
  get_streaming_fee fee_states set_token previous_accrue_timestamp recent_accrue_timestamp
        streaming_fee =
      do
        fee_state ← fee_states set_token
        let time_elapsed = sub recent_accrue_timestamp previous_accrue_timestamp
        div (mul time_elapsed (accrual_rate streaming_fee fee_state)) one_year_in_seconds

  unfoldable pub get_streaming_fee_inflation_amount : ℤ → ℤ → Result ℤ
  get_streaming_fee_inflation_amount inflation_percent total_supply =
      let a = mul inflation_percent total_supply in
      let b = sub precise_unit inflation_percent in div a b

  unfoldable pub post_fee_unit : ℤ → ℤ → Result ℤ
  post_fee_unit inflation_percent unit =
      if gte unit (pos 0)
      then precise_mul unit (sub precise_unit inflation_percent)
      else precise_mul_ceil_int unit (sub precise_unit inflation_percent)

  unfoldable pub get_post_fee_position_units : List ℤ → ℤ → Result (List ℤ)
  unfolding post_fee_unit
  get_post_fee_position_units [] inflation_percent = ok []
  get_post_fee_position_units (unit ∷ units) inflation_percent = do
    new_unit ← post_fee_unit inflation_percent unit
    new_units ← get_post_fee_position_units units inflation_percent
    ok (new_unit ∷ new_units)
