-- ===== src/Utils/NavIssuanceModuleUtils.antt =====
-- utils/common/navIssuanceModuleUtils.ts: what issuing and redeeming at net asset value should give.
pub mod Multipliers
use set_protocol_v2_contract.Common.{Result, ok, ◌>>=◌}
use set_protocol_v2_contract.Common.Integer.{ℤ}
use set_protocol_v2_contract.External.Ethers.{BigNumber}
use set_protocol_v2_contract.Utils.Constants.{precise_unit}
use set_protocol_v2_contract.Utils.Types.{Address}
use set_protocol_v2_contract.Utils.MathUtils.{
  precise_mul, precise_mul_ceil, precise_div, precise_div_ceil,
}

-- The handles of the two contracts that `getExpectedSetTokenIssueQuantity` calls.
pub record SetTokenHandle : Type 0 where
  pub address : Address
  pub total_supply : Result ℤ

pub record SetValuerHandle : Type 0 where
  pub calculate_set_token_valuation : Address → Address → Result ℤ

module _ ⦃bn : BigNumber⦄ where
  open bn use {add, sub, mul, div}

  unfoldable pub get_expected_issue_position_multiplier : ℤ → ℤ → ℤ → Result ℤ
  get_expected_issue_position_multiplier previous_position_multiplier previous_supply
        current_supply =
      do
        inflation ← precise_div_ceil (sub current_supply previous_supply) current_supply
        precise_mul previous_position_multiplier (sub precise_unit inflation)

  unfoldable pub get_expected_post_fee_quantity : ℤ → ℤ → ℤ → Result ℤ
  get_expected_post_fee_quantity quantity manager_fee_percentage protocol_direct_fee_percentage = do
    manager_fees ← precise_mul quantity manager_fee_percentage
    protocol_direct_fees ← precise_mul quantity protocol_direct_fee_percentage
    ok (sub (sub quantity manager_fees) protocol_direct_fees)

  unfoldable pub get_expected_set_token_issue_quantity :
      SetTokenHandle → SetValuerHandle → Address → ℤ → ℤ → ℤ → ℤ → ℤ → Result ℤ
  unfolding get_expected_post_fee_quantity
  get_expected_set_token_issue_quantity set_token set_valuer reserve_asset reserve_asset_base_units
        reserve_asset_quantity manager_fee_percentage protocol_direct_fee_percentage
        premium_percentage =
      do
        valuation ← set_valuer.calculate_set_token_valuation set_token.address reserve_asset
        supply ← set_token.total_supply
        sub_fees ←
            get_expected_post_fee_quantity reserve_asset_quantity manager_fee_percentage
              protocol_direct_fee_percentage
        premium ← precise_mul sub_fees premium_percentage
        let sub_fees_and_premium = sub sub_fees premium
        normalized_sub_fees ← precise_div sub_fees reserve_asset_base_units
        normalized_sub_fees_and_premium ← precise_div sub_fees_and_premium reserve_asset_base_units
        value ← precise_mul supply valuation
        let denominator = sub (add value normalized_sub_fees) normalized_sub_fees_and_premium
        numerator ← precise_mul normalized_sub_fees_and_premium supply
        precise_div numerator denominator

  -- The last two lines of both functions for the position unit: rounding as between the real and
  -- the virtual units of the contracts.
  unfoldable pub round_down_position_unit : ℤ → ℤ → Result ℤ
  round_down_position_unit new_position_unit new_position_multiplier = do
    rounded ← precise_mul new_position_unit new_position_multiplier
    precise_div rounded new_position_multiplier

  unfoldable pub get_expected_issue_position_unit : ℤ → ℤ → ℤ → ℤ → ℤ → ℤ → ℤ → Result ℤ
  unfolding get_expected_post_fee_quantity round_down_position_unit
  get_expected_issue_position_unit previous_units issue_quantity previous_supply current_supply
        new_position_multiplier manager_fee_percentage protocol_direct_fee_percentage =
      do
        issue_quantity_sub_fees ←
            get_expected_post_fee_quantity issue_quantity manager_fee_percentage
              protocol_direct_fee_percentage
        held ← precise_mul previous_supply previous_units
        let numerator = add held issue_quantity_sub_fees
        new_position_unit ← precise_div numerator current_supply
        round_down_position_unit new_position_unit new_position_multiplier

  unfoldable pub get_expected_reserve_redeem_quantity : ℤ → ℤ → ℤ → ℤ → ℤ → ℤ → Result ℤ
  unfolding get_expected_post_fee_quantity
  get_expected_reserve_redeem_quantity set_token_quantity_to_redeem set_token_valuation
        reserve_asset_base_units manager_fee_percentage protocol_direct_fee_percentage
        premium_percentage =
      do
        total_notional ← precise_mul set_token_valuation set_token_quantity_to_redeem
        total_premium ← precise_mul_ceil total_notional premium_percentage
        sub_fees ←
            get_expected_post_fee_quantity (sub total_notional total_premium) manager_fee_percentage
              protocol_direct_fee_percentage
        precise_mul sub_fees reserve_asset_base_units

  unfoldable pub get_expected_redeem_position_multiplier : ℤ → ℤ → ℤ → Result ℤ
  get_expected_redeem_position_multiplier previous_position_multiplier previous_supply
        current_supply =
      do
        deflation ← precise_div (sub previous_supply current_supply) current_supply
        precise_mul previous_position_multiplier (add precise_unit deflation)

  -- The fee percentages are parameters that the source does not read.
  unfoldable pub get_expected_redeem_position_unit :
      ℤ → ℤ → ℤ → ℤ → ℤ → ℤ → ℤ → ℤ → ℤ → ℤ → Result ℤ
  unfolding round_down_position_unit
  get_expected_redeem_position_unit previous_units set_token_quantity_to_redeem set_token_valuation
        reserve_asset_base_units previous_supply current_supply new_position_multiplier
        manager_fee_percentage protocol_direct_fee_percentage premium_percentage =
      do
        total_notional ← precise_mul set_token_valuation set_token_quantity_to_redeem
        total_premium ← precise_mul_ceil total_notional premium_percentage
        total_reserve_balance ←
            precise_mul (sub total_notional total_premium) reserve_asset_base_units
        held ← precise_mul previous_supply previous_units
        let numerator = sub held total_reserve_balance
        new_position_unit ← precise_div numerator current_supply
        round_down_position_unit new_position_unit new_position_multiplier
