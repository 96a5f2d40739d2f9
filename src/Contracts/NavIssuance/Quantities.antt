-- ===== src/Contracts/NavIssuance/Quantities.antt =====
-- contracts/protocol/modules/NAVIssuanceModule.sol: fees, quantities, multipliers and units.
use set_protocol_v2_contract.Common.{ℕ, ◌^◌, ◌%◌, Result, ok, ◌>>=◌, ◌>>◌, require, leb}
use set_protocol_v2_contract.Common.Integer.{ℤ}
use set_protocol_v2_contract.External.OpenZeppelin.{SafeMath, SignedSafeMath, SafeCast, uint_limit}
use set_protocol_v2_contract.Contracts.PreciseUnitMath.{precise_mul, precise_mul_ceil, precise_div}
use set_protocol_v2_contract.Contracts.AddressArrayUtils.{at}
use set_protocol_v2_contract.Contracts.Controller.{Controller, get_module_fee}
use set_protocol_v2_contract.Contracts.SetToken.{SetToken, get_default_position_real_unit}
use set_protocol_v2_contract.Contracts.NavIssuance.{NavIssuanceSettings}

pub record ActionInfo : Type 0 where
  pub pre_fee_reserve_quantity : ℕ
  pub protocol_fees : ℕ
  pub manager_fee : ℕ
  pub net_flow_quantity : ℕ
  pub set_token_quantity : ℕ
  pub previous_set_token_supply : ℕ
  pub new_set_token_supply : ℕ
  pub new_position_multiplier : ℤ
  pub new_reserve_position_unit : ℕ

-- The indices of the fees: the manager's in its array, the protocol's on the controller.
pub record FeeIndices : Type 0 where
  pub manager_revenue_share : ℕ
  pub direct : ℕ
  pub manager : ℕ

abbrev pub issue_indices : FeeIndices
issue_indices = record { manager_revenue_share = 0; direct = 2; manager = 0 }

abbrev pub redeem_indices : FeeIndices
redeem_indices = record { manager_revenue_share = 1; direct = 3; manager = 1 }

pub record Percentages : Type 0 where
  pub protocol : ℕ
  pub manager : ℕ

pub record Fees : Type 0 where
  pub protocol_fees : ℕ
  pub manager_fee : ℕ
  pub net_reserve_flow : ℕ

-- `10 ** decimals` on uint256.
abbrev pub base_units : ℕ → ℕ
base_units decimals = 10 ^ decimals % uint_limit

module _ ⦃sm : SafeMath⦄ where
  unfoldable pub get_protocol_and_manager_fee_percentages :
      Controller → ℕ → NavIssuanceSettings → FeeIndices → Result Percentages
  get_protocol_and_manager_fee_percentages controller this settings i = do
    let direct_fee = get_module_fee controller this i.direct
    let share_fee = get_module_fee controller this i.manager_revenue_share
    manager_fee ← at settings.manager_fees i.manager
    protocol_share ← precise_mul share_fee manager_fee
    manager_share ← sm.sub manager_fee protocol_share
    total_protocol_fee ← sm.add protocol_share direct_fee
    ok (record { protocol = total_protocol_fee; manager = manager_share })

  unfoldable pub fees_of : Percentages → ℕ → Result Fees
  fees_of p reserve_asset_quantity = do
    protocol_fees ← precise_mul p.protocol reserve_asset_quantity
    manager_fee ← precise_mul p.manager reserve_asset_quantity
    left ← sm.sub reserve_asset_quantity protocol_fees
    net_reserve_flow ← sm.sub left manager_fee
    ok (record {
      protocol_fees = protocol_fees;
      manager_fee = manager_fee;
      net_reserve_flow = net_reserve_flow;
    })

  unfoldable pub get_fees : Controller → ℕ → NavIssuanceSettings → ℕ → FeeIndices → Result Fees
  get_fees controller this settings reserve_asset_quantity i = do
    p ← get_protocol_and_manager_fee_percentages controller this settings i
    fees_of p reserve_asset_quantity

  -- The valuation is the answer of the SetValuer, and the decimals that of the reserve asset.
  unfoldable pub get_set_token_mint_quantity : Result ℕ → Result ℕ → ℕ → ℕ → ℕ → Result ℕ
  get_set_token_mint_quantity valued asset_decimals premium_percentage net_reserve_flows supply = do
    premium_value ← precise_mul net_reserve_flows premium_percentage
    valuation ← valued
    decimals ← asset_decimals
    net_fees ← precise_div net_reserve_flows (base_units decimals)
    after_premium ← sm.sub net_reserve_flows premium_value
    net_fees_and_premium ← precise_div after_premium (base_units decimals)
    value ← precise_mul supply valuation
    raised ← sm.add value net_fees
    denominator ← sm.sub raised net_fees_and_premium
    numerator ← precise_mul net_fees_and_premium supply
    precise_div numerator denominator

  unfoldable pub get_redeem_reserve_quantity : Result ℕ → Result ℕ → ℕ → ℕ → Result ℕ
  get_redeem_reserve_quantity valued asset_decimals premium_percentage set_token_quantity = do
    valuation ← valued
    total_redeem_value ← precise_mul set_token_quantity valuation
    decimals ← asset_decimals
    pre_premium ← precise_mul total_redeem_value (base_units decimals)
    premium_quantity ← precise_mul_ceil pre_premium premium_percentage
    sm.sub pre_premium premium_quantity

  module _ ⦃ssm : SignedSafeMath⦄ ⦃sc : SafeCast⦄ where
    -- The multiplier times the old supply over the new one.
    unfoldable pub scale_multiplier : SetToken → ℕ → ℕ → Result ℤ
    scale_multiplier t previous_supply new_supply = do
      previous ← sc.to_int previous_supply
      product ← ssm.mul t.position_multiplier previous
      current ← sc.to_int new_supply
      ssm.div product current

    unfoldable pub get_issue_position_unit : SetToken → ℕ → ℕ → ℕ → ℕ → Result ℕ
    get_issue_position_unit t reserve_asset previous_supply net_flow new_supply = do
      real_unit ← get_default_position_real_unit t reserve_asset
      existing_unit ← sc.to_uint real_unit
      held ← precise_mul existing_unit previous_supply
      total_reserve ← sm.add held net_flow
      precise_div total_reserve new_supply

    unfoldable pub get_redeem_position_unit : SetToken → ℕ → ℕ → Fees → ℕ → Result ℕ
    get_redeem_position_unit t reserve_asset previous_supply fees new_supply = do
      real_unit ← get_default_position_real_unit t reserve_asset
      existing_unit ← sc.to_uint real_unit
      total_existing_units ← precise_mul existing_unit previous_supply
      flow ← sm.add fees.net_reserve_flow fees.protocol_fees
      outflow ← sm.add flow fees.manager_fee
      require (leb outflow total_existing_units) "Must be greater than total available collateral"
      left ← sm.sub total_existing_units outflow
      precise_div left new_supply
