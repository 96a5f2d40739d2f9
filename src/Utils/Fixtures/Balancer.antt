-- ===== src/Utils/Fixtures/Balancer.antt =====
-- utils/fixtures/balancerFixture.ts: pools of Balancer and their registry.
use Prim.Native.String.{◌++◌, len, slice}
use text.Mathlib.Text.{◌==◌ as ◌is_text◌}
use set_protocol_v2_contract.Common.{
  String, Bool, true, false, List, [], ◌∷◌, Result, ok, err, fault, ◌>>=◌ as ◌then_result◌,
  if◌then◌else◌, ◌||◌,
}
use set_protocol_v2_contract.Common.Integer.{ℤ}
use set_protocol_v2_contract.External.Ethers.{BigNumber, EthersUtils}
use set_protocol_v2_contract.Utils.Constants.{one}
use set_protocol_v2_contract.Utils.Types.{Address}
use set_protocol_v2_contract.Utils.UnitsUtils.{ether, bitcoin}
use set_protocol_v2_contract.Utils.Network.{
  Request, Network, Async, ◌>>=◌, ◌>>◌, pure, lift, send, address, addresses, number, flag,
}
use set_protocol_v2_contract.Utils.Deploys.Uniswap.{
  deploy_b_factory, deploy_exchange_proxy, deploy_b_registry,
}

-- A log of a receipt, with its topics alone.
pub record Log : Type 0 where
  pub topics : List String

pub record BalancerFixture : Type 0 where
  pub owner : Address
  pub factory : Address
  pub weth_dai_pool : Address
  pub weth_wbtc_pool : Address
  pub wbtc_dai_pool : Address
  pub registry : Address
  pub exchange : Address

abbrev pub new_pool_topic : String
new_pool_topic = "0x8ccec77b0cb63ac2cafd0f5de8cdfadab91ce656d262240ba8a6343bccc5f945"

unfoldable pub includes : List String → String → Bool
includes [] topic = false
includes (t ∷ rest) topic = t is_text topic || includes rest topic

unfoldable pub filter_logs : List Log → List Log
filter_logs [] = []
filter_logs (log ∷ rest) =
    let kept = filter_logs rest in if includes log.topics new_pool_topic then log ∷ kept else kept

-- A read out of an array is undefined, and the next access throws.
unfoldable pub third : List String → Result String
third (a ∷ b ∷ c ∷ rest) = ok c
third (a ∷ b ∷ []) = err fault
third (a ∷ []) = err fault
third [] = err fault

unfoldable pub first_pool : List Log → Result Address
first_pool [] = err fault
first_pool (log ∷ rest) =
    third log.topics then_result λ topic. ok ("0x" ++ slice topic 26 (len topic))

-- `receipt_logs` are the logs in the receipt of the latest request.
module _ (receipt_logs : List Request → Result (List Log)) ⦃net : Network⦄
    ⦃utils : EthersUtils⦄ where
  unfoldable pub get_pool_address_from_transaction : Async Address
  get_pool_address_from_transaction requests =
      lift (receipt_logs requests then_result λ logs. first_pool (filter_logs logs)) requests

  unfoldable pub create_new_pool : Address → Address → Address → ℤ → ℤ → Async Address
  create_new_pool factory token_one token_two token_one_balance token_two_balance = do
    send factory "newBPool" []
    pool ← get_pool_address_from_transaction
    send token_one "approve" (address pool ∷ number token_one_balance ∷ [])
    first_weight ← lift (ether "5")
    send pool "bind" (address token_one ∷ number token_one_balance ∷ number first_weight ∷ [])
    send token_two "approve" (address pool ∷ number token_two_balance ∷ [])
    second_weight ← lift (ether "5")
    send pool "bind" (address token_two ∷ number token_two_balance ∷ number second_weight ∷ [])
    send pool "setPublicSwap" (flag true ∷ [])
    pure pool

  unfoldable pub initialize :
      ⦃bn : BigNumber⦄ → Address → Address → Address → Address → Async BalancerFixture
  initialize owner weth wbtc dai = do
    factory ← deploy_b_factory
    weth_amount ← lift (ether "400")
    dai_amount ← lift (ether "92000")
    weth_dai_pool ← create_new_pool factory weth dai weth_amount dai_amount
    first_amount ← lift (ether "391.3043")
    second_amount ← lift (bitcoin 10)
    weth_wbtc_pool ← create_new_pool factory wbtc weth first_amount second_amount
    wbtc_amount ← lift (bitcoin 10)
    other_dai_amount ← lift (ether "90000")
    wbtc_dai_pool ← create_new_pool factory wbtc dai wbtc_amount other_dai_amount
    registry ← deploy_b_registry factory
    exchange ← deploy_exchange_proxy weth
    send registry "addPoolPair" (address weth_dai_pool ∷ address weth ∷ address dai ∷ [])
    send registry "addPoolPair" (address weth_wbtc_pool ∷ address weth ∷ address wbtc ∷ [])
    send registry "addPoolPair" (address wbtc_dai_pool ∷ address wbtc ∷ address dai ∷ [])
    send registry "sortPools" (addresses (weth ∷ dai ∷ []) ∷ number one ∷ [])
    send registry "sortPools" (addresses (wbtc ∷ dai ∷ []) ∷ number one ∷ [])
    send registry "sortPools" (addresses (weth ∷ wbtc ∷ []) ∷ number one ∷ [])
    send exchange "setRegistry" (address registry ∷ [])
    pure (record {
      owner = owner;
      factory = factory;
      weth_dai_pool = weth_dai_pool;
      weth_wbtc_pool = weth_wbtc_pool;
      wbtc_dai_pool = wbtc_dai_pool;
      registry = registry;
      exchange = exchange;
    })
