-- ===== src/Contracts/Position.antt =====
-- contracts/protocol/lib/Position.sol: default and external positions of a token.
pub mod Tracking
use Prim.Native.String.{len}
use set_protocol_v2_contract.Common.{
  ℕ, String, Bool, not, ◌&&◌, List, Result, ok, ◌>>=◌, ◌>>◌, require, if◌then◌else◌, ltb, ◌==◌,
}
use set_protocol_v2_contract.Common.Integer.{ℤ, pos, ltb_ℤ, leb_ℤ, eqb_ℤ}
use set_protocol_v2_contract.Common.Lists.{length}
use set_protocol_v2_contract.External.OpenZeppelin.{SafeMath, SignedSafeMath, SafeCast}
use set_protocol_v2_contract.External.TokenContracts.{Erc20Contracts}
use set_protocol_v2_contract.Contracts.PreciseUnitMath.{precise_mul, precise_div}
use set_protocol_v2_contract.Contracts.AddressArrayUtils.{at}
use set_protocol_v2_contract.Contracts.SetToken.{
  SetToken, is_component, is_external_position_module, get_default_position_real_unit,
  get_external_position_real_unit, add_component, remove_component, add_external_position_module,
  remove_external_position_module, edit_default_position_unit, edit_external_position_unit,
  edit_external_position_data,
}

unfoldable pub has_external_position : SetToken → ℕ → Bool
has_external_position t component =
    ltb 0 (length (t.component_positions component).external_position_modules)

module _ ⦃ssm : SignedSafeMath⦄ where
  unfoldable pub has_default_position : SetToken → ℕ → Result Bool
  has_default_position t component = do
    unit ← get_default_position_real_unit t component
    ok (ltb_ℤ (pos 0) unit)

  unfoldable pub has_sufficient_default_units : ⦃sc : SafeCast⦄ → SetToken → ℕ → ℕ → Result Bool
  has_sufficient_default_units ⦃sc⦄ t component unit = do
    held ← get_default_position_real_unit t component
    wanted ← sc.to_int unit
    ok (leb_ℤ wanted held)

  unfoldable pub has_sufficient_external_units :
      ⦃sc : SafeCast⦄ → SetToken → ℕ → ℕ → ℕ → Result Bool
  has_sufficient_external_units ⦃sc⦄ t component position_module unit = do
    held ← get_external_position_real_unit t component position_module
    wanted ← sc.to_int unit
    ok (leb_ℤ wanted held)

-- `sender` is the module that uses the library.
module _ (is_module : ℕ → Bool) ⦃ssm : SignedSafeMath⦄ where
  -- The changes of the components before the unit is written.
  unfoldable pub update_component : SetToken → ℕ → ℕ → Bool → ℕ → Result SetToken
  update_component t sender component is_position_found new_unit =
      if not is_position_found && ltb 0 new_unit
      then (if not (has_external_position t component)
          then add_component is_module t sender component
          else ok t)
      else if is_position_found && new_unit == 0
      then (if not (has_external_position t component)
          then remove_component is_module t sender component
          else ok t)
      else ok t

  unfoldable pub edit_default_position : ⦃sc : SafeCast⦄ → SetToken → ℕ → ℕ → ℕ → Result SetToken
  edit_default_position ⦃sc⦄ t sender component new_unit = do
    is_position_found ← has_default_position t component
    t' ← update_component t sender component is_position_found new_unit
    unit ← sc.to_int new_unit
    edit_default_position_unit is_module t' sender component unit

  -- The component and the module are added where they are missing.
  unfoldable pub add_missing : SetToken → ℕ → ℕ → ℕ → Result SetToken
  add_missing t sender component position_module =
      if not (is_component t component)
      then (do
        t' ← add_component is_module t sender component
        add_external_position_module is_module t' sender component position_module)
      else if not (is_external_position_module t component position_module)
      then add_external_position_module is_module t sender component position_module
      else ok t

  -- The component goes with its last position.
  unfoldable pub remove_last : SetToken → ℕ → ℕ → ℕ → Result SetToken
  remove_last t sender component position_module = do
    let position_modules = (t.component_positions component).external_position_modules
    default_unit ← get_default_position_real_unit t component
    if eqb_ℤ default_unit (pos 0) && length position_modules == 1
        then (do
          first ← at position_modules 0
          require (first == position_module) "External positions must be 0 to remove component"
          remove_component is_module t sender component)
        else ok t

  unfoldable pub edit_external_position : SetToken → ℕ → ℕ → ℕ → ℤ → String → Result SetToken
  edit_external_position t sender component position_module new_unit data_bytes =
      if not (eqb_ℤ new_unit (pos 0))
      then (do
        added ← add_missing t sender component position_module
        edited ←
            edit_external_position_unit is_module added sender component position_module new_unit
        edit_external_position_data is_module edited sender component position_module data_bytes)
      else (do
        require (len data_bytes == 0) "Passed data must be null"
        unit ← get_external_position_real_unit t component position_module
        if not (eqb_ℤ unit (pos 0))
            then (do
              t' ← remove_last t sender component position_module
              remove_external_position_module is_module t' sender component position_module)
            else ok t)

module _ ⦃sm : SafeMath⦄ where
  unfoldable pub get_default_total_notional : ℕ → ℕ → Result ℕ
  get_default_total_notional set_token_supply position_unit =
      precise_mul set_token_supply position_unit

  unfoldable pub get_default_position_unit : ℕ → ℕ → Result ℕ
  get_default_position_unit set_token_supply total_notional =
      precise_div total_notional set_token_supply

  unfoldable pub calculate_default_edit_position_unit : ℕ → ℕ → ℕ → ℕ → Result ℕ
  calculate_default_edit_position_unit supply pre_total_notional post_total_notional pre_unit = do
    tracked ← precise_mul pre_unit supply
    airdropped_amount ← sm.sub pre_total_notional tracked
    left ← sm.sub post_total_notional airdropped_amount
    precise_div left supply

  unfoldable pub get_default_tracked_balance :
      ⦃ssm : SignedSafeMath⦄ ⦃sc : SafeCast⦄ → SetToken → ℕ → Result ℕ
  get_default_tracked_balance ⦃ssm⦄ ⦃sc⦄ t component = do
    position_unit ← get_default_position_real_unit t component
    unit ← sc.to_uint position_unit
    precise_mul t.ledger.total_supply unit

-- What `calculateAndEditDefaultPosition` returns, with the token it leaves.
pub record EditedPosition : Type 0 where
  pub edited_token : SetToken
  pub current_balance : ℕ
  pub previous_unit : ℕ
  pub new_unit : ℕ

module _ {S : Type 0} (is_module : ℕ → Bool) ⦃sm : SafeMath⦄ ⦃ssm : SignedSafeMath⦄ ⦃sc : SafeCast⦄
    ⦃tc : Erc20Contracts S⦄ where
  -- `set_token` is the address of the token `t`.
  unfoldable pub calculate_and_edit_default_position :
      S → SetToken → ℕ → ℕ → ℕ → ℕ → ℕ → Result EditedPosition
  calculate_and_edit_default_position s t sender set_token component supply previous_balance = do
    let current_balance = tc.balance_of s component set_token
    real_unit ← get_default_position_real_unit t component
    position_unit ← sc.to_uint real_unit
    new_token_unit ←
        (if ltb 0 current_balance
          then calculate_default_edit_position_unit supply previous_balance current_balance
              position_unit
          else ok 0)
    t' ← edit_default_position is_module t sender component new_token_unit
    ok (record {
      edited_token = t';
      current_balance = current_balance;
      previous_unit = position_unit;
      new_unit = new_token_unit;
    })
