-- ===== src/Contracts/NavIssuance/Actions.antt =====
-- contracts/protocol/modules/NAVIssuanceModule.sol: issues and redemptions at net asset value. The
-- SetValuer, the decimals of a reserve asset and the manager's hooks are parameters.
use set_protocol_v2_contract.Common.{
  ℕ, not, Result, ok, ◌>>=◌, ◌>>◌, require, if◌then◌else◌, ltb, leb, ◌==◌,
}
use set_protocol_v2_contract.External.OpenZeppelin.{SafeMath, SignedSafeMath, SafeCast, Erc20}
use set_protocol_v2_contract.External.TokenContracts.{Erc20Contracts}
use set_protocol_v2_contract.Contracts.SetToken.{SetToken, mint, burn, edit_position_multiplier}
use set_protocol_v2_contract.Contracts.ModuleBase.{
  require_valid_and_initialized_set, transfer_from, pay_protocol_fee_from_set_token,
}
use set_protocol_v2_contract.Contracts.Invoke.{strict_invoke_transfer}
use set_protocol_v2_contract.Contracts.Position.{edit_default_position}
use set_protocol_v2_contract.Contracts.NavIssuance.{World, put_token}
use set_protocol_v2_contract.Contracts.NavIssuance.Quantities.{
  ActionInfo, issue_indices, redeem_indices, get_fees, get_set_token_mint_quantity,
  get_redeem_reserve_quantity, scale_multiplier, get_issue_position_unit, get_redeem_position_unit,
}

-- The code outside that the module calls.
pub record Surroundings (S : Type 0) : Type 0 where
  -- `calculateSetTokenValuation` of contracts/protocol/SetValuer.sol: the token and the quote asset.
  pub valuation : World S → ℕ → ℕ → Result ℕ
  pub decimals : S → ℕ → Result ℕ
  -- The hook, the token, the reserve asset, the quantity, the caller and the recipient.
  pub pre_issue_hook : World S → ℕ → ℕ → ℕ → ℕ → ℕ → ℕ → Result (World S)
  -- The hook, the token, the quantity, the caller and the recipient.
  pub pre_redeem_hook : World S → ℕ → ℕ → ℕ → ℕ → ℕ → Result (World S)

module _ {S : Type 0} where
  unfoldable pub validate_common : World S → ℕ → ℕ → ℕ → Result (Unit {0})
  validate_common w set_token reserve_asset quantity = do
    require (ltb 0 quantity) "Quantity must be > 0"
    require (w.is_reserve_asset set_token reserve_asset) "Must be valid reserve asset"

  unfoldable pub validate_issuance_info : World S → ℕ → ℕ → ActionInfo → Result (Unit {0})
  validate_issuance_info w set_token min_set_token_receive_quantity info = do
    require
        (leb (w.nav_issuance_settings set_token).min_set_token_supply
          info.previous_set_token_supply)
        "Supply must be greater than minimum to enable issuance"
    require (leb min_set_token_receive_quantity info.set_token_quantity)
        "Must be greater than min SetToken"

  unfoldable pub validate_redemption_info : World S → ℕ → ℕ → ActionInfo → Result (Unit {0})
  validate_redemption_info w set_token min_reserve_receive_quantity info = do
    require (leb (w.nav_issuance_settings set_token).min_set_token_supply info.new_set_token_supply)
        "Supply must be greater than minimum to enable redemption"
    require (leb min_reserve_receive_quantity info.net_flow_quantity)
        "Must be greater than min receive reserve quantity"

  module _ (around : Surroundings S) where
    unfoldable pub call_pre_issue_hooks : World S → ℕ → ℕ → ℕ → ℕ → ℕ → Result (World S)
    call_pre_issue_hooks w set_token reserve_asset quantity caller recipient =
        let hook = (w.nav_issuance_settings set_token).manager_issuance_hook in
        if not (hook == 0)
        then around.pre_issue_hook w hook set_token reserve_asset quantity caller recipient
        else ok w

    unfoldable pub call_pre_redeem_hooks : World S → ℕ → ℕ → ℕ → ℕ → Result (World S)
    call_pre_redeem_hooks w set_token quantity caller recipient =
        let hook = (w.nav_issuance_settings set_token).manager_redemption_hook in
        if not (hook == 0)
        then around.pre_redeem_hook w hook set_token quantity caller recipient
        else ok w

    module _ (this : ℕ) ⦃sm : SafeMath⦄ ⦃ssm : SignedSafeMath⦄ ⦃sc : SafeCast⦄ where
      unfoldable pub create_issuance_info : World S → ℕ → ℕ → ℕ → Result ActionInfo
      create_issuance_info w set_token reserve_asset reserve_asset_quantity = do
        let t = w.tokens set_token
        let s = w.nav_issuance_settings set_token
        let previous_supply = t.ledger.total_supply
        fees ← get_fees w.controller this s reserve_asset_quantity issue_indices
        let valued = around.valuation w set_token reserve_asset
        let asset_decimals = around.decimals w.outside reserve_asset
        quantity ←
            get_set_token_mint_quantity valued asset_decimals s.premium_percentage
              fees.net_reserve_flow previous_supply
        new_supply ← sm.add quantity previous_supply
        multiplier ← scale_multiplier t previous_supply new_supply
        unit ←
            get_issue_position_unit t reserve_asset previous_supply fees.net_reserve_flow new_supply
        ok (record {
          pre_fee_reserve_quantity = reserve_asset_quantity;
          protocol_fees = fees.protocol_fees;
          manager_fee = fees.manager_fee;
          net_flow_quantity = fees.net_reserve_flow;
          set_token_quantity = quantity;
          previous_set_token_supply = previous_supply;
          new_set_token_supply = new_supply;
          new_position_multiplier = multiplier;
          new_reserve_position_unit = unit;
        })

      unfoldable pub create_redemption_info : World S → ℕ → ℕ → ℕ → Result ActionInfo
      create_redemption_info w set_token reserve_asset set_token_quantity = do
        let t = w.tokens set_token
        let s = w.nav_issuance_settings set_token
        let previous_supply = t.ledger.total_supply
        let valued = around.valuation w set_token reserve_asset
        let asset_decimals = around.decimals w.outside reserve_asset
        pre_fee ←
            get_redeem_reserve_quantity valued asset_decimals s.premium_percentage
              set_token_quantity
        fees ← get_fees w.controller this s pre_fee redeem_indices
        new_supply ← sm.sub previous_supply set_token_quantity
        multiplier ← scale_multiplier t previous_supply new_supply
        unit ← get_redeem_position_unit t reserve_asset previous_supply fees new_supply
        ok (record {
          pre_fee_reserve_quantity = pre_fee;
          protocol_fees = fees.protocol_fees;
          manager_fee = fees.manager_fee;
          net_flow_quantity = fees.net_reserve_flow;
          set_token_quantity = set_token_quantity;
          previous_set_token_supply = previous_supply;
          new_set_token_supply = new_supply;
          new_position_multiplier = multiplier;
          new_reserve_position_unit = unit;
        })

module _ {S : Type 0} (this : ℕ) ⦃sm : SafeMath⦄ ⦃ssm : SignedSafeMath⦄ ⦃sc : SafeCast⦄ where
  -- `editPositionMultiplier` and `editDefaultPosition`, as both state updates begin.
  unfoldable pub edit_positions : World S → ℕ → ℕ → ActionInfo → Result SetToken
  edit_positions w set_token reserve_asset info = do
    let t = w.tokens set_token
    scaled ← edit_position_multiplier w.controller.is_module t this info.new_position_multiplier
    edit_default_position w.controller.is_module scaled this reserve_asset
        info.new_reserve_position_unit

  unfoldable pub handle_issue_state_updates :
      ⦃erc20 : Erc20⦄ → World S → ℕ → ℕ → ℕ → ActionInfo → Result (World S)
  handle_issue_state_updates w set_token reserve_asset recipient info = do
    edited ← edit_positions w set_token reserve_asset info
    t ← mint w.controller.is_module edited this recipient info.set_token_quantity
    ok (put_token w set_token t)

  unfoldable pub handle_redeem_state_updates : World S → ℕ → ℕ → ActionInfo → Result (World S)
  handle_redeem_state_updates w set_token reserve_asset info = do
    t ← edit_positions w set_token reserve_asset info
    ok (put_token w set_token t)

module _ {S : Type 0} (this : ℕ) ⦃sm : SafeMath⦄ ⦃tc : Erc20Contracts S⦄ where
  unfoldable pub transfer_collateral_and_handle_fees : World S → ℕ → ℕ → ℕ → ActionInfo → Result S
  transfer_collateral_and_handle_fees w sender set_token reserve_asset info = do
    s ← transfer_from w.outside reserve_asset this sender set_token info.net_flow_quantity
    s' ←
        (if ltb 0 info.protocol_fees
          then transfer_from s reserve_asset this sender w.controller.fee_recipient
              info.protocol_fees
          else ok s)
    if ltb 0 info.manager_fee
        then transfer_from s' reserve_asset this sender
            (w.nav_issuance_settings set_token).fee_recipient info.manager_fee
        else ok s'

  unfoldable pub handle_redemption_fees : World S → ℕ → ℕ → ActionInfo → Result S
  handle_redemption_fees w set_token reserve_asset info = do
    let t = w.tokens set_token
    s ←
        pay_protocol_fee_from_set_token w.controller w.outside this set_token t reserve_asset
          info.protocol_fees
    if ltb 0 info.manager_fee
        then strict_invoke_transfer w.controller.is_module s this set_token t reserve_asset
            (w.nav_issuance_settings set_token).fee_recipient info.manager_fee
        else ok s

module _ {S : Type 0} (around : Surroundings S) (this : ℕ) ⦃sm : SafeMath⦄ ⦃ssm : SignedSafeMath⦄
    ⦃sc : SafeCast⦄ ⦃erc20 : Erc20⦄ ⦃tc : Erc20Contracts S⦄ where
  unfoldable pub issue : World S → ℕ → ℕ → ℕ → ℕ → ℕ → ℕ → Result (World S)
  issue w sender set_token reserve_asset reserve_asset_quantity min_set_token_receive_quantity
        recipient =
      do
        require_valid_and_initialized_set w.controller this set_token (w.tokens set_token)
        validate_common w set_token reserve_asset reserve_asset_quantity
        w' ←
            call_pre_issue_hooks around w set_token reserve_asset reserve_asset_quantity sender
              recipient
        info ← create_issuance_info around this w' set_token reserve_asset reserve_asset_quantity
        validate_issuance_info w' set_token min_set_token_receive_quantity info
        s ← transfer_collateral_and_handle_fees this w' sender set_token reserve_asset info
        handle_issue_state_updates this (record w' { outside = s }) set_token reserve_asset
            recipient info

  unfoldable pub redeem : World S → ℕ → ℕ → ℕ → ℕ → ℕ → ℕ → Result (World S)
  redeem w sender set_token reserve_asset set_token_quantity min_reserve_receive_quantity
        recipient =
      do
        require_valid_and_initialized_set w.controller this set_token (w.tokens set_token)
        validate_common w set_token reserve_asset set_token_quantity
        w' ← call_pre_redeem_hooks around w set_token set_token_quantity sender recipient
        info ← create_redemption_info around this w' set_token reserve_asset set_token_quantity
        validate_redemption_info w' set_token min_reserve_receive_quantity info
        burnt ← burn w'.controller.is_module (w'.tokens set_token) this sender set_token_quantity
        s ←
            strict_invoke_transfer w'.controller.is_module w'.outside this set_token burnt
              reserve_asset recipient info.net_flow_quantity
        let paid = put_token (record w' { outside = s }) set_token burnt
        s' ← handle_redemption_fees this paid set_token reserve_asset info
        handle_redeem_state_updates this (record paid { outside = s' }) set_token reserve_asset info
