-- ===== src/Utils/Fixtures/Uniswap.antt =====
-- utils/fixtures/uniswapFixture.ts: pairs and staking pools of Uniswap.
use set_protocol_v2_contract.Common.{[], ◌∷◌}
use set_protocol_v2_contract.Common.Integer.{ℤ, pos}
use set_protocol_v2_contract.External.Ethers.{BigNumber, EthersUtils}
use set_protocol_v2_contract.Utils.Constants.{one_day_in_seconds}
use set_protocol_v2_contract.Utils.Types.{Address}
use set_protocol_v2_contract.Utils.UnitsUtils.{ether}
use set_protocol_v2_contract.Utils.Network.{
  Network, Async, ◌>>=◌, ◌>>◌, pure, lift, send, read_address, read_number, address, number,
}
use set_protocol_v2_contract.Utils.Deploys.Uniswap.{
  deploy_uni, deploy_uniswap_timelock, deploy_uniswap_governor_alpha, deploy_uniswap_v2_factory,
  deploy_uniswap_v2_router02, deploy_staking_rewards,
}

pub record StakingPair : Type 0 where
  pub pool : Address
  pub staking_rewards : Address

pub record UniswapFixture : Type 0 where
  pub owner : Address
  pub uni : Address
  pub uniswap_governor_alpha : Address
  pub uniswap_timelock : Address
  pub factory : Address
  pub router : Address
  pub weth_dai : StakingPair
  pub weth_wbtc : StakingPair
  pub uni_weth_pool : Address

module _ ⦃net : Network⦄ ⦃bn : BigNumber⦄ where
  unfoldable pub create_new_pair : Address → Address → Address → Async Address
  create_new_pair factory token_one token_two = do
    send factory "createPair" (address token_one ∷ address token_two ∷ [])
    pairs_length ← read_number factory "allPairsLength" []
    pool_address ← read_address factory "allPairs" (number (bn.sub pairs_length (pos 1)) ∷ [])
    pure pool_address

  module _ ⦃utils : EthersUtils⦄ where
    unfoldable pub create_new_staking_pair :
        Address → Address → Address → Address → Address → Async StakingPair
    create_new_staking_pair factory uni owner token_one token_two = do
      pool_instance ← create_new_pair factory token_one token_two
      staking_instance ← deploy_staking_rewards owner uni pool_instance
      rewards ← lift (ether "5000000")
      send uni "transfer" (address staking_instance ∷ number rewards ∷ [])
      send staking_instance "notifyRewardAmount" (number rewards ∷ [])
      pure (record { pool = pool_instance; staking_rewards = staking_instance })

    -- `timestamp` is the time of the provider's latest block.
    unfoldable pub initialize : Address → Address → Address → Address → ℤ → Async UniswapFixture
    initialize owner weth wbtc dai timestamp = do
      factory ← deploy_uniswap_v2_factory owner
      router ← deploy_uniswap_v2_router02 factory weth
      uni ← deploy_uni owner owner (bn.add timestamp (pos 2))
      uniswap_timelock ← deploy_uniswap_timelock owner (bn.mul one_day_in_seconds (pos 2))
      uniswap_governor_alpha ← deploy_uniswap_governor_alpha uniswap_timelock uni
      weth_dai ← create_new_staking_pair factory uni owner weth dai
      weth_wbtc ← create_new_staking_pair factory uni owner weth wbtc
      uni_weth_pool ← create_new_pair factory weth uni
      pure (record {
        owner = owner;
        uni = uni;
        uniswap_governor_alpha = uniswap_governor_alpha;
        uniswap_timelock = uniswap_timelock;
        factory = factory;
        router = router;
        weth_dai = weth_dai;
        weth_wbtc = weth_wbtc;
        uni_weth_pool = uni_weth_pool;
      })
