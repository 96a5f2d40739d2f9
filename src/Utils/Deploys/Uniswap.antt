-- ===== src/Utils/Deploys/Uniswap.antt =====
-- utils/deploys/deployExternal.ts: the contracts of Uniswap.
use set_protocol_v2_contract.Common.{String, [], ◌∷◌}
use set_protocol_v2_contract.Common.Integer.{ℤ}
use set_protocol_v2_contract.Utils.Types.{Address}
use set_protocol_v2_contract.Utils.Network.{Network, Async, deploy, address, number, text}

module _ ⦃net : Network⦄ where
  unfoldable pub deploy_uni : Address → Address → ℤ → Async Address
  deploy_uni account minter minting_allowed_after =
      deploy "Uni" (address account ∷ address minter ∷ number minting_allowed_after ∷ [])

  unfoldable pub deploy_uniswap_timelock : Address → ℤ → Async Address
  deploy_uniswap_timelock admin delay = deploy "UniswapTimelock" (address admin ∷ number delay ∷ [])

  unfoldable pub deploy_uniswap_governor_alpha : Address → Address → Async Address
  deploy_uniswap_governor_alpha timelock uni =
      deploy "UniswapGovernorAlpha" (address timelock ∷ address uni ∷ [])

  unfoldable pub deploy_uniswap_v2_factory : String → Async Address
  deploy_uniswap_v2_factory fee_to_setter = deploy "UniswapV2Factory" (text fee_to_setter ∷ [])

  unfoldable pub deploy_uniswap_v2_router02 : Address → Address → Async Address
  deploy_uniswap_v2_router02 factory weth =
      deploy "UniswapV2Router02" (address factory ∷ address weth ∷ [])

  unfoldable pub deploy_uniswap_v2_pair : Address → Address → Async Address
  deploy_uniswap_v2_pair factory weth = deploy "UniswapV2Pair" []

  unfoldable pub deploy_staking_rewards : Address → Address → Address → Async Address
  deploy_staking_rewards rewards_distribution rewards_token staking_token =
      deploy "StakingRewards"
        (address rewards_distribution ∷ address rewards_token ∷ address staking_token ∷ [])

  unfoldable pub deploy_b_factory : Async Address
  deploy_b_factory = deploy "BFactory" []

  unfoldable pub deploy_exchange_proxy : Address → Async Address
  deploy_exchange_proxy weth = deploy "ExchangeProxy" (address weth ∷ [])

  unfoldable pub deploy_b_registry : Address → Async Address
  deploy_b_registry factory = deploy "BRegistry" (address factory ∷ [])

  unfoldable pub deploy_delegate_registry : Async Address
  deploy_delegate_registry = deploy "DelegateRegistry" []
