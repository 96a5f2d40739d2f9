-- ===== src/Utils/Deploys/Curve.antt =====
-- utils/deploys/deployExternal.ts: the contracts of Curve.
use set_protocol_v2_contract.Common.{String, List, [], ◌∷◌}
use set_protocol_v2_contract.Common.Integer.{ℤ}
use set_protocol_v2_contract.Utils.Types.{Address}
use set_protocol_v2_contract.Utils.Network.{Network, Async, deploy, addresses, number, text}

module _ ⦃net : Network⦄ where
  unfoldable pub deploy_curve_deposit :
      List Address → List Address → String → String → Async Address
  deploy_curve_deposit coins underlying_coins curve token =
      deploy "CurveDeposit"
        (addresses coins ∷ addresses underlying_coins ∷ text curve ∷ text token ∷ [])

  unfoldable pub deploy_curve_pool_erc20 : String → String → ℤ → ℤ → Async Address
  deploy_curve_pool_erc20 name symbol decimals supply =
      deploy "CurvePoolERC20" (text name ∷ text symbol ∷ number decimals ∷ number supply ∷ [])

  unfoldable pub deploy_stableswap : List Address → List Address → String → ℤ → ℤ → Async Address
  deploy_stableswap coins underlying_coins pool_token a_coefficient fee = deploy "Stableswap" (
      addresses coins
      ∷ addresses underlying_coins
      ∷ text pool_token
      ∷ number a_coefficient
      ∷ number fee
      ∷ [])

  unfoldable pub deploy_crv_token : String → String → ℤ → Async Address
  deploy_crv_token name symbol decimals =
      deploy "CRVToken" (text name ∷ text symbol ∷ number decimals ∷ [])

  unfoldable pub deploy_gauge_controller : String → String → Async Address
  deploy_gauge_controller token voting_escrow =
      deploy "GaugeController" (text token ∷ text voting_escrow ∷ [])

  unfoldable pub deploy_liquidity_gauge_reward : String → String → String → String → Async Address
  deploy_liquidity_gauge_reward lp_addr minter reward_contract rewarded_token =
      deploy "LiquidityGaugeReward"
        (text lp_addr ∷ text minter ∷ text reward_contract ∷ text rewarded_token ∷ [])

  unfoldable pub deploy_liquidity_gauge : String → String → Async Address
  deploy_liquidity_gauge lp_addr minter = deploy "LiquidityGauge" (text lp_addr ∷ text minter ∷ [])

  unfoldable pub deploy_minter : String → String → Async Address
  deploy_minter token controller = deploy "Minter" (text token ∷ text controller ∷ [])
