-- ===== src/Utils/Fixtures/Curve.antt =====
-- utils/fixtures/curveFixture.ts: the pool, the DAO and the gauges of Curve. The overloads that the
-- source picks by their signature are named by it.
use set_protocol_v2_contract.Common.{String, List, [], ◌∷◌}
use set_protocol_v2_contract.Common.Integer.{pos}
use set_protocol_v2_contract.External.Ethers.{EthersUtils}
use set_protocol_v2_contract.Utils.Types.{Address}
use set_protocol_v2_contract.Utils.UnitsUtils.{ether}
use set_protocol_v2_contract.Utils.Network.{
  Network, Async, ◌>>=◌, ◌>>◌, pure, lift, send, address, number, text,
}
use set_protocol_v2_contract.Utils.Deploys.Curve.{
  deploy_curve_pool_erc20, deploy_stableswap, deploy_curve_deposit, deploy_crv_token,
  deploy_gauge_controller, deploy_minter, deploy_liquidity_gauge, deploy_liquidity_gauge_reward,
}

pub record CurvePool : Type 0 where
  pub pool_token : Address
  pub stable_swap : Address
  pub deposit : Address

pub record CurveDao : Type 0 where
  pub crv_token : Address
  pub gauge_controller : Address
  pub minter : Address

module _ ⦃net : Network⦄ where
  -- The coefficient and the fee are the defaults of `deployStableswap`.
  unfoldable pub initialize_pool : List Address → Async CurvePool
  initialize_pool tokens = do
    pool_token ← deploy_curve_pool_erc20 "Curve.fi DAI/USDC/USDT/sUSD" "crvUSD" (pos 18) (pos 0)
    stable_swap ← deploy_stableswap tokens tokens pool_token (pos 1) (pos 0)
    deposit ← deploy_curve_deposit tokens tokens stable_swap pool_token
    send pool_token "set_minter" (address stable_swap ∷ [])
    pure (record { pool_token = pool_token; stable_swap = stable_swap; deposit = deposit })

  module _ ⦃utils : EthersUtils⦄ where
    -- The decimals are the default of `deployCrvToken`.
    unfoldable pub initialize_dao : Async CurveDao
    initialize_dao = do
      crv_token ← deploy_crv_token "Curve DAO Token" "CRV" (pos 18)
      gauge_controller ← deploy_gauge_controller crv_token crv_token
      weight ← lift (ether "0.5")
      send gauge_controller "add_type(string,uint256)" (text "Liquidity" ∷ number weight ∷ [])
      minter ← deploy_minter crv_token gauge_controller
      send crv_token "set_minter" (address minter ∷ [])
      pure (record { crv_token = crv_token; gauge_controller = gauge_controller; minter = minter })

    -- `gaugeController.add_gauge` with the type 0 and the weight of one ether.
    unfoldable pub add_gauge : CurveDao → Address → Async (Unit {0})
    add_gauge dao gauge = do
      weight ← lift (ether "1")
      send dao.gauge_controller "add_gauge(address,int128,uint256)"
          (address gauge ∷ number (pos 0) ∷ number weight ∷ [])

    unfoldable pub initialize_gauge : CurveDao → String → Async Address
    initialize_gauge dao lp_token = do
      gauge ← deploy_liquidity_gauge lp_token dao.minter
      add_gauge dao gauge
      pure gauge

    unfoldable pub initialize_gauge_rewards : CurveDao → String → String → String → Async Address
    initialize_gauge_rewards dao lp_token reward_contract rewarded_token = do
      gauge ← deploy_liquidity_gauge_reward lp_token dao.minter reward_contract rewarded_token
      add_gauge dao gauge
      pure gauge
