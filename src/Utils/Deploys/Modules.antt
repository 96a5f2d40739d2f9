-- ===== src/Utils/Deploys/Modules.antt =====
-- utils/deploys/deployModules.ts: the modules of the protocol.
use set_protocol_v2_contract.Common.{[], ◌∷◌}
use set_protocol_v2_contract.Utils.Types.{Address}
use set_protocol_v2_contract.Utils.Network.{Network, Async, pure, deploy, address}

module _ ⦃net : Network⦄ where
  unfoldable pub deploy_basic_issuance_module : Address → Async Address
  deploy_basic_issuance_module controller = deploy "BasicIssuanceModule" (address controller ∷ [])

  unfoldable pub deploy_issuance_module : Address → Async Address
  deploy_issuance_module controller = deploy "IssuanceModule" (address controller ∷ [])

  unfoldable pub deploy_debt_issuance_module : Address → Async Address
  deploy_debt_issuance_module controller = deploy "DebtIssuanceModule" (address controller ∷ [])

  unfoldable pub deploy_amm_module : Address → Async Address
  deploy_amm_module controller = deploy "AmmModule" (address controller ∷ [])

  unfoldable pub get_basic_issuance_module : Address → Async Address
  get_basic_issuance_module basic_issuance_module = pure basic_issuance_module

  unfoldable pub deploy_streaming_fee_module : Address → Async Address
  deploy_streaming_fee_module controller = deploy "StreamingFeeModule" (address controller ∷ [])

  unfoldable pub get_streaming_fee_module : Address → Async Address
  get_streaming_fee_module streaming_fee_module = pure streaming_fee_module

  unfoldable pub deploy_airdrop_module : Address → Async Address
  deploy_airdrop_module controller = deploy "AirdropModule" (address controller ∷ [])

  unfoldable pub deploy_nav_issuance_module : Address → Address → Async Address
  deploy_nav_issuance_module controller weth =
      deploy "NavIssuanceModule" (address controller ∷ address weth ∷ [])

  unfoldable pub deploy_custom_oracle_nav_issuance_module : Address → Address → Async Address
  deploy_custom_oracle_nav_issuance_module controller weth =
      deploy "CustomOracleNavIssuanceModule" (address controller ∷ address weth ∷ [])

  unfoldable pub deploy_trade_module : Address → Async Address
  deploy_trade_module controller = deploy "TradeModule" (address controller ∷ [])

  unfoldable pub deploy_wrap_module : Address → Address → Async Address
  deploy_wrap_module controller weth = deploy "WrapModule" (address controller ∷ address weth ∷ [])

  unfoldable pub deploy_claim_module : Address → Async Address
  deploy_claim_module controller = deploy "ClaimModule" (address controller ∷ [])

  unfoldable pub deploy_staking_module : Address → Async Address
  deploy_staking_module controller = deploy "StakingModule" (address controller ∷ [])

  unfoldable pub deploy_uniswap_yield_strategy :
      Address → Address → Address → Address → Address → Address → Address → Address → Async Address
  deploy_uniswap_yield_strategy controller uniswap_router lp_token asset_one asset_two uni rewarder
        fee_recipient =
      deploy "UniswapYieldStrategy" (
        address controller
        ∷ address uniswap_router
        ∷ address lp_token
        ∷ address asset_one
        ∷ address asset_two
        ∷ address uni
        ∷ address rewarder
        ∷ address fee_recipient
        ∷ [])

  unfoldable pub get_uniswap_yield_strategy : Address → Async Address
  get_uniswap_yield_strategy uniswap_yield_strategy = pure uniswap_yield_strategy

  unfoldable pub get_nav_issuance_module : Address → Async Address
  get_nav_issuance_module nav_issuance_module = pure nav_issuance_module

  unfoldable pub deploy_single_index_module :
      Address → Address → Address → Address → Address → Async Address
  deploy_single_index_module controller weth uniswap_router sushiswap_router balancer_proxy =
      deploy "SingleIndexModule" (
        address controller
        ∷ address weth
        ∷ address uniswap_router
        ∷ address sushiswap_router
        ∷ address balancer_proxy
        ∷ [])

  unfoldable pub deploy_governance_module : Address → Async Address
  deploy_governance_module controller = deploy "GovernanceModule" (address controller ∷ [])
