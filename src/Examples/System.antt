-- ===== src/Examples/System.antt =====
-- utils/fixtures/systemFixture.ts on a chain that accepts every request.
use set_protocol_v2_contract.Common.{◌^◌, ◌≡◌, refl, List, [], ◌∷◌, ok, arith}
use set_protocol_v2_contract.Common.Integer.{pos}
use set_protocol_v2_contract.Utils.Network.{
  Request, ◌>>=◌, pure, lift, answer, sends, deploys, address, addresses, number, numbers, text,
}
use set_protocol_v2_contract.Utils.UnitsUtils.{ether}
use set_protocol_v2_contract.Utils.Deploys.Core.{
  deploy_controller, deploy_integration_registry, deploy_set_token_creator, deploy_price_oracle,
  deploy_set_valuer,
}
use set_protocol_v2_contract.Utils.Deploys.Modules.{
  deploy_basic_issuance_module, deploy_streaming_fee_module, deploy_nav_issuance_module,
}
use set_protocol_v2_contract.Utils.Deploys.Mocks.{deploy_token_mock, deploy_oracle_mock}
use set_protocol_v2_contract.Utils.Deploys.Weth.{deploy_weth}
use set_protocol_v2_contract.Utils.Fixtures.System.{
  SystemFixture, initialize, initialize_with, initialize_standard_components, fourth,
}
use set_protocol_v2_contract.Utils.Fixtures.System.Requests.{Decodes, initialize-IsLaunched_fixture}
use set_protocol_v2_contract.Contracts.Controller.{Controller, create}
use set_protocol_v2_contract.Contracts.Controller.Calls.{Call, apply}
use set_protocol_v2_contract.Contracts.Controller.Launch.{IsLaunched}
use set_protocol_v2_contract.Examples.Instances.{network, ethers_utils}

abbrev fixture : SystemFixture
fixture = record {
  owner = "0x0a";
  fee_recipient = "0x0d";
  controller = "0x01";
  factory = "0x01";
  price_oracle = "0x01";
  integration_registry = "0x01";
  set_valuer = "0x01";
  issuance_module = "0x01";
  streaming_fee_module = "0x01";
  nav_issuance_module = "0x01";
  components = record {
    weth = "0x01";
    usdc = "0x01";
    wbtc = "0x01";
    dai = "0x01";
    component1_price = pos (10 ^ 18);
    component2_price = pos (10 ^ 18);
    component3_price = pos (10 ^ 18);
    component4_price = pos (10 ^ 18);
    eth_usd_oracle = "0x01";
    usd_usd_oracle = "0x01";
    btc_usd_oracle = "0x01";
    dai_usd_oracle = "0x01";
  };
}

abbrev earlier_requests : List Request
earlier_requests =
    deploys "NavIssuanceModule" (address "0x01" ∷ address "0x01" ∷ [])
    ∷ deploys "StreamingFeeModule" (address "0x01" ∷ [])
    ∷ deploys "SetValuer" (address "0x01" ∷ [])
    ∷ deploys "IntegrationRegistry" (address "0x01" ∷ [])
    ∷ deploys "PriceOracle" (
        address "0x01"
        ∷ address "0x01"
        ∷ addresses []
        ∷ addresses ("0x01" ∷ "0x01" ∷ "0x01" ∷ "0x01" ∷ [])
        ∷ addresses ("0x01" ∷ "0x01" ∷ "0x01" ∷ "0x01" ∷ [])
        ∷ addresses ("0x01" ∷ "0x01" ∷ "0x01" ∷ "0x01" ∷ [])
        ∷ [])
    ∷ deploys "SetTokenCreator" (address "0x01" ∷ [])
    ∷ deploys "IntegrationRegistry" (address "0x01" ∷ [])
    ∷ sends "0x01" "approve" (address "0x01" ∷ number (pos (10 ^ 18)) ∷ []) (pos 0)
    ∷ sends "0x01" "approve" (address "0x01" ∷ number (pos (10 ^ 18)) ∷ []) (pos 0)
    ∷ sends "0x01" "approve" (address "0x01" ∷ number (pos (10 ^ 18)) ∷ []) (pos 0)
    ∷ sends "0x01" "approve" (address "0x01" ∷ number (pos (10 ^ 18)) ∷ []) (pos 0)
    ∷ sends "0x01" "deposit" [] (pos (10 ^ 18))
    ∷ deploys "OracleMock" (number (pos (10 ^ 18)) ∷ [])
    ∷ deploys "OracleMock" (number (pos (10 ^ 18)) ∷ [])
    ∷ deploys "OracleMock" (number (pos (10 ^ 18)) ∷ [])
    ∷ deploys "OracleMock" (number (pos (10 ^ 18)) ∷ [])
    ∷ deploys "StandardTokenMock" (
        address "0x0a"
        ∷ number (pos (10 ^ 18))
        ∷ text "Token"
        ∷ text "Symbol"
        ∷ number (pos 18)
        ∷ [])
    ∷ deploys "StandardTokenMock" (
        address "0x0a"
        ∷ number (pos (10 ^ 18))
        ∷ text "Token"
        ∷ text "Symbol"
        ∷ number (pos 8)
        ∷ [])
    ∷ deploys "StandardTokenMock" (
        address "0x0a"
        ∷ number (pos (10 ^ 18))
        ∷ text "Token"
        ∷ text "Symbol"
        ∷ number (pos 6)
        ∷ [])
    ∷ deploys "WETH9" []
    ∷ deploys "BasicIssuanceModule" (address "0x01" ∷ [])
    ∷ deploys "Controller" (address "0x0d" ∷ [])
    ∷ []

abbrev requests : List Request
requests =
    sends "0x01" "initialize"
      (addresses ("0x01" ∷ [])
        ∷ addresses ("0x01" ∷ "0x01" ∷ "0x01" ∷ [])
        ∷ addresses ("0x01" ∷ "0x01" ∷ "0x01" ∷ [])
        ∷ numbers (pos 0 ∷ pos 1 ∷ pos 2 ∷ [])
        ∷ [])
      (pos 0)
    ∷ earlier_requests

returns_fixture :
    initialize ⦃net = network⦄ ⦃utils = ethers_utils⦄
      ("0x0a" ∷ "0x0b" ∷ "0x0c" ∷ "0x0d" ∷ [])
      "0x0a"
      []
    ≡ ok (fixture, requests)
unfolding initialize initialize_with initialize_standard_components fourth deploy_controller
    deploy_integration_registry deploy_set_token_creator deploy_price_oracle deploy_set_valuer
    deploy_basic_issuance_module deploy_streaming_fee_module deploy_nav_issuance_module
    deploy_token_mock deploy_oracle_mock deploy_weth ether ◌>>=◌ pure lift answer
returns_fixture = refl

-- Every address reads as 9.
initialize-IsLaunched_fixture_example :
    (latest : Request) × (earlier : List Request) × (requests ≡ latest ∷ earlier)
    × ((call : Call) × Decodes (λ _. 9) latest call
        × ((d : Controller) × (apply (λ _. ok tt) (create 7) 1 call ≡ ok d)
            × IsLaunched d 9 9 9 9 9 9 9))
initialize-IsLaunched_fixture_example =
    initialize-IsLaunched_fixture ⦃net = network⦄ ⦃utils = ethers_utils⦄ (λ _. ok tt) (λ _. 9) 7 1
      ("0x0a" ∷ "0x0b" ∷ "0x0c" ∷ "0x0d" ∷ []) "0x0a" [] fixture requests returns_fixture refl
      (record {
        factory = λ e. ground arith;
        issuance = λ e. ground arith;
        streaming = λ e. ground arith;
        nav = λ e. ground arith;
        registry = λ e. ground arith;
        oracle = λ e. ground arith;
        valuer = λ e. ground arith;
      })
