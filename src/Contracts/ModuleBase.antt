-- ===== src/Contracts/ModuleBase.antt =====
-- contracts/protocol/lib/ModuleBase.sol: the guards that the modules share and the protocol fee,
-- and the transfer of contracts/lib/ExplicitERC20.sol that they take components with.
use set_protocol_v2_contract.Common.{
  ℕ, Bool, ◌&&◌, Result, ok, ◌>>=◌, ◌>>◌, require, if◌then◌else◌, ltb, ◌==◌,
}
use set_protocol_v2_contract.External.OpenZeppelin.{SafeMath}
use set_protocol_v2_contract.External.TokenContracts.{Erc20Contracts}
use set_protocol_v2_contract.Contracts.Controller.{Controller}
use set_protocol_v2_contract.Contracts.Invoke.{strict_invoke_transfer}
use set_protocol_v2_contract.Contracts.SetToken.{SetToken, is_initialized_state, is_pending_state}

abbrev pub is_set_manager : SetToken → ℕ → Bool
is_set_manager t caller = t.manager == caller

-- `this` is the address of the module.
abbrev pub is_set_valid_and_initialized : Controller → ℕ → ℕ → SetToken → Bool
is_set_valid_and_initialized controller this set_token t =
    controller.is_set set_token && is_initialized_state (t.module_states this)

abbrev pub require_set_manager : SetToken → ℕ → Result (Unit {0})
require_set_manager t caller = require (is_set_manager t caller) "Must be the SetToken manager"

abbrev pub require_valid_and_initialized_set : Controller → ℕ → ℕ → SetToken → Result (Unit {0})
require_valid_and_initialized_set controller this set_token t =
    require (is_set_valid_and_initialized controller this set_token t)
      "Must be a valid and initialized SetToken"

abbrev pub require_valid_and_pending_set : Controller → ℕ → ℕ → SetToken → Result (Unit {0})
require_valid_and_pending_set controller this set_token t = do
  require (controller.is_set set_token) "Must be controller-enabled SetToken"
  require (is_pending_state (t.module_states this)) "Must be pending initialization"

module _ {S : Type 0} ⦃sm : SafeMath⦄ ⦃tc : Erc20Contracts S⦄ where
  -- The spender is the module. Nothing is called for a quantity of zero.
  unfoldable pub transfer_from : S → ℕ → ℕ → ℕ → ℕ → ℕ → Result S
  transfer_from s token spender payer payee quantity =
      if ltb 0 quantity
      then (do
        s' ← tc.safe_transfer_from s token spender payer payee quantity
        expected ← sm.add (tc.balance_of s token payee) quantity
        require (tc.balance_of s' token payee == expected) "Invalid post transfer balance"
        ok s')
      else ok s

  unfoldable pub pay_protocol_fee_from_set_token :
      Controller → S → ℕ → ℕ → SetToken → ℕ → ℕ → Result S
  pay_protocol_fee_from_set_token controller s this set_token t token fee_quantity =
      if ltb 0 fee_quantity
      then strict_invoke_transfer controller.is_module s this set_token t token
          controller.fee_recipient fee_quantity
      else ok s
