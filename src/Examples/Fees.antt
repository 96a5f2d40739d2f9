-- ===== src/Examples/Fees.antt =====
-- contracts/protocol/modules/StreamingFeeModule.sol: a year at 2%, half of it for the protocol.
use set_protocol_v2_contract.Common.{ℕ, ◌+◌, ◌*◌, ◌^◌, ◌≤◌, ◌≡◌, refl, ok, none, arith, ◌==◌, []}
use set_protocol_v2_contract.Common.Integer.{ℤ, pos, ◌*ℤ◌, quot}
use set_protocol_v2_contract.Contracts.Storage.{update}
use set_protocol_v2_contract.Contracts.PreciseUnitMath.{
  precise_mul, precise_mul_int, conservative_precise_mul, div_down, xor_is_negative, has_remainder,
}
use set_protocol_v2_contract.Contracts.Controller.{Controller, get_module_fee}
use set_protocol_v2_contract.Contracts.SetToken.{
  SetToken, initialize_module, mint, edit_position_multiplier, privileged, validate_only_module,
  validate_when_locked_only_locker, validate_new_multiplier, get_positions_abs_minimum_virtual_unit,
  components_minimum, external_minimum, lower, none_state, pending,
}
use set_protocol_v2_contract.Contracts.StreamingFee.{
  World, FeeState, Accrued, no_fee_state, initialize, accrue_fee, inflate, only_set_manager,
  only_valid_and_initialized_set, only_valid_and_pending_set, calculate_streaming_fee,
  calculate_streaming_fee_inflation, mint_manager_and_protocol_fee, edit_token_multiplier,
}
use set_protocol_v2_contract.Contracts.StreamingFee.Accrual.{Inflates, accrue_fee-Inflates}
use set_protocol_v2_contract.Contracts.StreamingFee.Collateral.{accrue_fee-covers}
use set_protocol_v2_contract.Contracts.StreamingFee.FeeStates.{
  AreCapped, IsReachable, deployed, then_step, initializes, reachable-AreCapped,
}
use set_protocol_v2_contract.Utils.FeeModuleUtils.{
  get_streaming_fee, get_streaming_fee_inflation_amount,
}
use set_protocol_v2_contract.Agreement.StreamingFee.{as_streaming_fee_state, accrue_fee-predicted}
use set_protocol_v2_contract.Examples.Instances.{
  big_numbers, safe_math, signed_safe_math, safe_cast, erc20,
}
use set_protocol_v2_contract.Examples.Registry.{started}
use set_protocol_v2_contract.Examples.Tokens.{ready_token}

abbrev registry : Controller
registry = record started { is_set = λ a. a == 100; fees = λ _ _. 5 * 10 ^ 17 }

-- The token 100 with a supply of 98, and the module 20.
abbrev charged : SetToken
charged = record ready_token { ledger = record { balances = λ _. 0; total_supply = 98 * 10 ^ 18 } }

abbrev two_percent : FeeState
two_percent = record {
  fee_recipient = 8;
  max_streaming_fee_percentage = 5 * 10 ^ 16;
  streaming_fee_percentage = 2 * 10 ^ 16;
  last_streaming_fee_timestamp = 1000;
}

abbrev before : World
before = record { controller = registry; tokens = λ _. charged; fee_states = λ _. two_percent }

abbrev inflated : SetToken
inflated = record charged {
  position_multiplier = pos (98 * 10 ^ 16);
  ledger = record {
    balances = update (update (λ _. 0) 8 (10 ^ 18)) 7 (10 ^ 18);
    total_supply = 100 * 10 ^ 18;
  };
}

abbrev after_mint : SetToken
after_mint = record inflated { position_multiplier = pos (10 ^ 18) }

abbrev accrued : Accrued
accrued = record {
  world = record {
    controller = registry;
    tokens = update (update before.tokens 100 after_mint) 100 inflated;
    fee_states =
        update before.fee_states 100
          (record two_percent { last_streaming_fee_timestamp = 31558600 });
  };
  manager_fee = 10 ^ 18;
  protocol_fee = 10 ^ 18;
}

accrues_year :
    accrue_fee 20 ⦃sm = safe_math⦄ ⦃ssm = signed_safe_math⦄ ⦃sc = safe_cast⦄ ⦃erc20 = erc20⦄ before
      31558600 100
    ≡ ok accrued
unfolding accrue_fee inflate only_valid_and_initialized_set calculate_streaming_fee
    calculate_streaming_fee_inflation mint_manager_and_protocol_fee edit_token_multiplier
    precise_mul precise_mul_int get_module_fee mint edit_position_multiplier privileged
    validate_only_module validate_when_locked_only_locker validate_new_multiplier
    get_positions_abs_minimum_virtual_unit components_minimum external_minimum lower
    conservative_precise_mul div_down xor_is_negative has_remainder ◌*ℤ◌ quot
accrues_year = refl

accrue_fee-Inflates_example :
    Inflates 20 ⦃sm = safe_math⦄ ⦃ssm = signed_safe_math⦄ ⦃sc = safe_cast⦄ ⦃erc20 = erc20⦄ before
      31558600 100 accrued
    × ((accrued.world.fee_states 100).last_streaming_fee_timestamp ≡ 31558600)
accrue_fee-Inflates_example =
    accrue_fee-Inflates 20 ⦃sm = safe_math⦄ ⦃ssm = signed_safe_math⦄ ⦃sc = safe_cast⦄
      ⦃erc20 = erc20⦄ before 31558600 100 accrued (ground arith) accrues_year

accrue_fee-covers_example :
    (m' : ℕ) × ((accrued.world.tokens 100).position_multiplier ≡ pos m')
    × ((accrued.world.tokens 100).ledger.total_supply * m' ≤ 98 * 10 ^ 18 * 10 ^ 18)
accrue_fee-covers_example =
    accrue_fee-covers 20 ⦃sm = safe_math⦄ ⦃ssm = signed_safe_math⦄ ⦃sc = safe_cast⦄ ⦃erc20 = erc20⦄
      before 31558600 100 accrued (10 ^ 18) refl accrues_year

accrue_fee-predicted_example :
    (fee : ℤ) × (get_streaming_fee ⦃bn = big_numbers⦄
        (λ _. ok (as_streaming_fee_state (λ _. "0x64") two_percent))
        "0x64"
        (pos 1000)
        (pos 31558600)
        none
      ≡ ok fee)
    × (get_streaming_fee_inflation_amount ⦃bn = big_numbers⦄ fee (pos (98 * 10 ^ 18))
        ≡ ok (pos (accrued.manager_fee + accrued.protocol_fee)))
    × ((accrued.world.tokens 100).ledger.total_supply
        ≡ 98 * 10 ^ 18 + (accrued.manager_fee + accrued.protocol_fee))
accrue_fee-predicted_example =
    accrue_fee-predicted ⦃bn = big_numbers⦄ 20 ⦃sm = safe_math⦄ ⦃ssm = signed_safe_math⦄
      ⦃sc = safe_cast⦄ ⦃erc20 = erc20⦄ (λ _. "0x64") before 31558600 100 accrued (ground arith)
      accrues_year

-- The module is pending on the token 100, whose manager initializes it at the time 1000.
abbrev awaiting : SetToken
awaiting = record charged { modules = []; module_states = update (λ _. none_state) 20 pending }

abbrev fresh_world : World
fresh_world = record {
  controller = registry;
  tokens = λ _. awaiting;
  fee_states = λ _. no_fee_state;
}

abbrev set_up : World
set_up = record {
  controller = registry;
  tokens = update (λ _. awaiting) 100 charged;
  fee_states = update (λ _. no_fee_state) 100 two_percent;
}

reaches_set_up :
    IsReachable 20 ⦃sm = safe_math⦄ ⦃ssm = signed_safe_math⦄ ⦃sc = safe_cast⦄ ⦃erc20 = erc20⦄ set_up
unfolding initialize initialize_module only_set_manager only_valid_and_pending_set
reaches_set_up =
    then_step fresh_world set_up (deployed registry (λ _. awaiting))
      (initializes fresh_world 1000 1 100 two_percent set_up refl)

reachable-AreCapped_example : AreCapped set_up.fee_states
reachable-AreCapped_example =
    reachable-AreCapped 20 ⦃sm = safe_math⦄ ⦃ssm = signed_safe_math⦄ ⦃sc = safe_cast⦄
      ⦃erc20 = erc20⦄ set_up reaches_set_up
