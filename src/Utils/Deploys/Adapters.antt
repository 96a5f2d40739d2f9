-- ===== src/Utils/Deploys/Adapters.antt =====
-- utils/deploys/deployAdapters.ts: the adapters to other protocols.
use set_protocol_v2_contract.Common.{List, [], ◌∷◌}
use set_protocol_v2_contract.Utils.Types.{Address, Bytes}
use set_protocol_v2_contract.Utils.Network.{Network, Async, pure, deploy, address, addresses, text}

module _ ⦃net : Network⦄ where
  unfoldable pub deploy_kyber_exchange_adapter : Address → Async Address
  deploy_kyber_exchange_adapter kyber_network_proxy =
      deploy "KyberExchangeAdapter" (address kyber_network_proxy ∷ [])

  unfoldable pub deploy_one_inch_exchange_adapter : Address → Address → Bytes → Async Address
  deploy_one_inch_exchange_adapter approve_address exchange_address swap_function_signature =
      deploy "OneInchExchangeAdapter"
        (address approve_address ∷ address exchange_address ∷ text swap_function_signature ∷ [])

  unfoldable pub deploy_uniswap_v2_exchange_adapter : Address → Async Address
  deploy_uniswap_v2_exchange_adapter uniswap_v2_router =
      deploy "UniswapV2ExchangeAdapter" (address uniswap_v2_router ∷ [])

  unfoldable pub deploy_uniswap_v2_exchange_adapter_v2 : Address → Async Address
  deploy_uniswap_v2_exchange_adapter_v2 uniswap_v2_router =
      deploy "UniswapV2ExchangeAdapterV2" (address uniswap_v2_router ∷ [])

  unfoldable pub deploy_aave_governance_adapter : Address → Address → Async Address
  deploy_aave_governance_adapter aave_proto_governance aave_token =
      deploy "AaveGovernanceAdapter" (address aave_proto_governance ∷ address aave_token ∷ [])

  unfoldable pub deploy_aave_governance_v2_adapter : Address → Address → Async Address
  deploy_aave_governance_v2_adapter aave_governance_v2 aave_token =
      deploy "AaveGovernanceV2Adapter" (address aave_governance_v2 ∷ address aave_token ∷ [])

  unfoldable pub deploy_aave_migration_wrap_adapter : Address → Address → Address → Async Address
  deploy_aave_migration_wrap_adapter aave_migration_proxy lend_token aave_token =
      deploy "AaveMigrationWrapAdapter"
        (address aave_migration_proxy ∷ address lend_token ∷ address aave_token ∷ [])

  unfoldable pub deploy_aave_wrap_adapter : Address → Async Address
  deploy_aave_wrap_adapter aave_lending_pool =
      deploy "AaveWrapAdapter" (address aave_lending_pool ∷ [])

  unfoldable pub deploy_compound_like_governance_adapter : Address → Address → Async Address
  deploy_compound_like_governance_adapter governance_alpha governance_token =
      deploy "CompoundLikeGovernanceAdapter"
        (address governance_alpha ∷ address governance_token ∷ [])

  unfoldable pub deploy_compound_bravo_governance_adapter : Address → Address → Async Address
  deploy_compound_bravo_governance_adapter governor_bravo governance_token =
      deploy "CompoundBravoGovernanceAdapter"
        (address governor_bravo ∷ address governance_token ∷ [])

  unfoldable pub deploy_curve_staking_adapter : Address → Async Address
  deploy_curve_staking_adapter gauge_controller =
      deploy "CurveStakingAdapter" (address gauge_controller ∷ [])

  unfoldable pub deploy_uniswap_pair_price_adapter :
      Address → Address → List Address → Async Address
  deploy_uniswap_pair_price_adapter controller uniswap_factory uniswap_pools =
      deploy "UniswapPairPriceAdapter"
        (address controller ∷ address uniswap_factory ∷ addresses uniswap_pools ∷ [])

  unfoldable pub get_uniswap_pair_price_adapter : Address → Async Address
  get_uniswap_pair_price_adapter uniswap_adapter_address = pure uniswap_adapter_address

  unfoldable pub deploy_zero_ex_api_adapter : Address → Async Address
  deploy_zero_ex_api_adapter zero_ex_address =
      deploy "ZeroExApiAdapter" (address zero_ex_address ∷ [])

  unfoldable pub deploy_snapshot_governance_adapter : Address → Async Address
  deploy_snapshot_governance_adapter delegate_registry =
      deploy "SnapshotGovernanceAdapter" (address delegate_registry ∷ [])
