-- ===== src/Contracts/StreamingFee.antt =====
-- contracts/protocol/modules/StreamingFeeModule.sol with the guards of its base contract
-- at its state. The contracts it calls stand in one state: the controller, the tokens by their
-- address, and the module's own mapping.
pub mod Accrual
pub mod Collateral
pub mod FeeStates
use set_protocol_v2_contract.Common.{
  ℕ, ◌+◌, ◌*◌, ◌^◌, Bool, not, ◌&&◌, Result, ok, ◌>>=◌, ◌>>◌, require, if◌then◌else◌, ltb, leb,
  ◌==◌,
}
use set_protocol_v2_contract.Common.Integer.{ℤ}
use set_protocol_v2_contract.External.OpenZeppelin.{SafeMath, SignedSafeMath, SafeCast, Erc20}
use set_protocol_v2_contract.Contracts.PreciseUnitMath.{precise_mul, precise_mul_int}
use set_protocol_v2_contract.Contracts.ModuleBase.{
  require_set_manager, require_valid_and_initialized_set, require_valid_and_pending_set,
}
use set_protocol_v2_contract.Contracts.Storage.{update}
use set_protocol_v2_contract.Contracts.Controller.{Controller, get_module_fee}
use set_protocol_v2_contract.Contracts.SetToken.{
  SetToken, is_initialized_state, is_pending_state, mint, edit_position_multiplier,
  initialize_module,
}

pub record FeeState : Type 0 where
  pub fee_recipient : ℕ
  pub max_streaming_fee_percentage : ℕ
  pub streaming_fee_percentage : ℕ
  pub last_streaming_fee_timestamp : ℕ

abbrev pub no_fee_state : FeeState
no_fee_state = record {
  fee_recipient = 0;
  max_streaming_fee_percentage = 0;
  streaming_fee_percentage = 0;
  last_streaming_fee_timestamp = 0;
}

pub record World : Type 0 where
  pub controller : Controller
  pub tokens : ℕ → SetToken
  pub fee_states : ℕ → FeeState

-- What `accrueFee` puts in its event.
pub record Accrued : Type 0 where
  pub world : World
  pub manager_fee : ℕ
  pub protocol_fee : ℕ

-- `365.25 days`
abbrev pub one_year_in_seconds : ℕ
one_year_in_seconds = 31557600

abbrev pub precise_unit : ℕ
precise_unit = 10 ^ 18

abbrev put_token : World → ℕ → SetToken → World
put_token w set_token t = record w { tokens = update w.tokens set_token t }

abbrev put_fee_state : World → ℕ → FeeState → World
put_fee_state w set_token s = record w { fee_states = update w.fee_states set_token s }

unfoldable pub only_set_manager : World → ℕ → ℕ → Result (Unit {0})
only_set_manager w set_token caller = require_set_manager (w.tokens set_token) caller

-- `this` is the address of the module.
module _ (this : ℕ) where
  unfoldable pub only_valid_and_initialized_set : World → ℕ → Result (Unit {0})
  only_valid_and_initialized_set w set_token =
      require_valid_and_initialized_set w.controller this set_token (w.tokens set_token)

  unfoldable pub only_valid_and_pending_set : World → ℕ → Result (Unit {0})
  only_valid_and_pending_set w set_token =
      require_valid_and_pending_set w.controller this set_token (w.tokens set_token)

  unfoldable pub initialize : World → ℕ → ℕ → ℕ → FeeState → Result World
  unfolding only_set_manager only_valid_and_pending_set
  initialize w now sender set_token settings = do
    only_set_manager w set_token sender
    only_valid_and_pending_set w set_token
    require (not (settings.fee_recipient == 0)) "Fee Recipient must be non-zero address."
    require (ltb settings.max_streaming_fee_percentage precise_unit) "Max fee must be < 100%."
    require (leb settings.streaming_fee_percentage settings.max_streaming_fee_percentage)
        "Fee must be <= max."
    t ← initialize_module (w.tokens set_token) this
    ok (
        put_token
          (put_fee_state w set_token (record settings { last_streaming_fee_timestamp = now }))
          set_token t)

  unfoldable pub update_fee_recipient : World → ℕ → ℕ → ℕ → Result World
  unfolding only_set_manager only_valid_and_initialized_set
  update_fee_recipient w sender set_token new_fee_recipient = do
    only_set_manager w set_token sender
    only_valid_and_initialized_set w set_token
    require (not (new_fee_recipient == 0)) "Fee Recipient must be non-zero address."
    ok (
        put_fee_state w set_token
          (record (w.fee_states set_token) { fee_recipient = new_fee_recipient }))

-- The sender is the token that removes the module.
unfoldable pub remove_module : World → ℕ → World
remove_module w sender = put_fee_state w sender no_fee_state

module _ ⦃sm : SafeMath⦄ where
  unfoldable pub calculate_streaming_fee : World → ℕ → ℕ → Result ℕ
  calculate_streaming_fee w now set_token = do
    let s = w.fee_states set_token
    time_since_last_fee ← sm.sub now s.last_streaming_fee_timestamp
    fee ← sm.mul time_since_last_fee s.streaming_fee_percentage
    sm.div fee one_year_in_seconds

  unfoldable pub calculate_streaming_fee_inflation : World → ℕ → ℕ → Result ℕ
  calculate_streaming_fee_inflation w set_token fee_percentage = do
    a ← sm.mul fee_percentage (w.tokens set_token).ledger.total_supply
    b ← sm.sub precise_unit fee_percentage
    sm.div a b

module _ (this : ℕ) ⦃sm : SafeMath⦄ ⦃ssm : SignedSafeMath⦄ ⦃sc : SafeCast⦄ ⦃erc20 : Erc20⦄ where
  unfoldable pub mint_manager_and_protocol_fee : World → ℕ → ℕ → Result Accrued
  mint_manager_and_protocol_fee w set_token fee_quantity = do
    let protocol_fee = get_module_fee w.controller this 0
    protocol_fee_amount ← precise_mul fee_quantity protocol_fee
    manager_fee_amount ← sm.sub fee_quantity protocol_fee_amount
    t ←
        mint w.controller.is_module (w.tokens set_token) this (w.fee_states set_token).fee_recipient
          manager_fee_amount
    t' ←
        (if ltb 0 protocol_fee_amount
          then mint w.controller.is_module t this w.controller.fee_recipient protocol_fee_amount
          else ok t)
    ok (record {
      world = put_token w set_token t';
      manager_fee = manager_fee_amount;
      protocol_fee = protocol_fee_amount;
    })

  unfoldable pub edit_token_multiplier : World → ℕ → ℕ → Result World
  edit_token_multiplier w set_token inflation_fee = do
    let t = w.tokens set_token
    left ← sm.sub precise_unit inflation_fee
    factor ← sc.to_int left
    new_multiplier ← precise_mul_int t.position_multiplier factor
    t' ← edit_position_multiplier w.controller.is_module t this new_multiplier
    ok (put_token w set_token t')

  -- The branch of `accrueFee` for a fee that is not zero.
  unfoldable pub inflate : World → ℕ → ℕ → Result Accrued
  inflate w now set_token = do
    inflation_fee_percentage ← calculate_streaming_fee w now set_token
    fee_quantity ← calculate_streaming_fee_inflation w set_token inflation_fee_percentage
    minted ← mint_manager_and_protocol_fee w set_token fee_quantity
    w' ← edit_token_multiplier minted.world set_token inflation_fee_percentage
    ok (record minted { world = w' })

  unfoldable pub accrue_fee : World → ℕ → ℕ → Result Accrued
  unfolding only_valid_and_initialized_set inflate
  accrue_fee w now set_token = do
    only_valid_and_initialized_set this w set_token
    accrued ←
        (if ltb 0 (w.fee_states set_token).streaming_fee_percentage
          then inflate w now set_token
          else ok (record { world = w; manager_fee = 0; protocol_fee = 0 }))
    let s = accrued.world.fee_states set_token
    ok (record accrued {
      world =
          put_fee_state accrued.world set_token (record s { last_streaming_fee_timestamp = now });
    })

  unfoldable pub update_streaming_fee : World → ℕ → ℕ → ℕ → ℕ → Result World
  unfolding only_set_manager only_valid_and_initialized_set accrue_fee
  update_streaming_fee w now sender set_token new_fee = do
    only_set_manager w set_token sender
    only_valid_and_initialized_set this w set_token
    require (ltb new_fee (w.fee_states set_token).max_streaming_fee_percentage)
        "Fee must be less than max"
    accrued ← accrue_fee w now set_token
    let s = accrued.world.fee_states set_token
    ok (put_fee_state accrued.world set_token (record s { streaming_fee_percentage = new_fee }))
