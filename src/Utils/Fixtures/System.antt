-- ===== src/Utils/Fixtures/System.antt =====
-- utils/fixtures/systemFixture.ts. What the class keeps in its fields is the record that each method
-- returns; `feeRecipient` is the fourth account that the provider lists.
pub mod Requests
use set_protocol_v2_contract.Common.{
  ℕ, zero, suc, String, List, [], ◌∷◌, Option, none, some, Result, ok, err, fault,
}
use set_protocol_v2_contract.Common.Integer.{ℤ, pos}
use set_protocol_v2_contract.External.Ethers.{EthersUtils}
use set_protocol_v2_contract.Utils.Types.{Address}
use set_protocol_v2_contract.Utils.UnitsUtils.{ether}
use set_protocol_v2_contract.Utils.Constants.{max_uint_256}
use set_protocol_v2_contract.Utils.ProtocolUtils.{EventReader, get_created_set_token_address}
use set_protocol_v2_contract.Utils.Network.{
  Request, Network, Async, ◌>>=◌, ◌>>◌, pure, lift, send, send_value, read_addresses, address,
  addresses, number, numbers, text,
}
use set_protocol_v2_contract.Utils.Deploys.Core.{
  deploy_controller, deploy_integration_registry, deploy_set_token_creator, deploy_price_oracle,
  deploy_set_valuer, deploy_set_token,
}
use set_protocol_v2_contract.Utils.Deploys.Modules.{
  deploy_basic_issuance_module, deploy_streaming_fee_module, deploy_nav_issuance_module,
}
use set_protocol_v2_contract.Utils.Deploys.Mocks.{
  deploy_token_mock, deploy_oracle_mock, get_token_mock,
}
use set_protocol_v2_contract.Utils.Deploys.Weth.{deploy_weth}

pub record StandardComponents : Type 0 where
  pub weth : Address
  pub usdc : Address
  pub wbtc : Address
  pub dai : Address
  pub component1_price : ℤ
  pub component2_price : ℤ
  pub component3_price : ℤ
  pub component4_price : ℤ
  pub eth_usd_oracle : Address
  pub usd_usd_oracle : Address
  pub btc_usd_oracle : Address
  pub dai_usd_oracle : Address

pub record SystemFixture : Type 0 where
  pub owner : Address
  pub fee_recipient : Address
  pub controller : Address
  pub factory : Address
  pub price_oracle : Address
  pub integration_registry : Address
  pub set_valuer : Address
  pub issuance_module : Address
  pub streaming_fee_module : Address
  pub nav_issuance_module : Address
  pub components : StandardComponents

-- `[, , , x] = list`: past the end of the list `x` is undefined.
unfoldable pub fourth : List Address → Option Address
fourth (_ ∷ _ ∷ _ ∷ x ∷ _) = some x
fourth _ = none

module _ ⦃net : Network⦄ ⦃utils : EthersUtils⦄ where
  unfoldable pub initialize_standard_components : Address → Address → Async StandardComponents
  initialize_standard_components owner issuance_module = do
    weth ← deploy_weth
    ten_thousand ← lift (ether "10000")
    usdc ← deploy_token_mock owner ten_thousand (pos 6) "Token" "Symbol"
    wbtc ← deploy_token_mock owner ten_thousand (pos 8) "Token" "Symbol"
    million ← lift (ether "1000000")
    dai ← deploy_token_mock owner million (pos 18) "Token" "Symbol"
    price1 ← lift (ether "230")
    price2 ← lift (ether "1")
    price3 ← lift (ether "9000")
    price4 ← lift (ether "1")
    oracle1 ← deploy_oracle_mock price1
    oracle2 ← deploy_oracle_mock price2
    oracle3 ← deploy_oracle_mock price3
    oracle4 ← deploy_oracle_mock price4
    five_thousand ← lift (ether "5000")
    send_value weth "deposit" [] five_thousand
    send weth "approve" (address issuance_module ∷ number ten_thousand ∷ [])
    send usdc "approve" (address issuance_module ∷ number ten_thousand ∷ [])
    send wbtc "approve" (address issuance_module ∷ number ten_thousand ∷ [])
    send dai "approve" (address issuance_module ∷ number ten_thousand ∷ [])
    pure (record {
      weth = weth;
      usdc = usdc;
      wbtc = wbtc;
      dai = dai;
      component1_price = price1;
      component2_price = price2;
      component3_price = price3;
      component4_price = price4;
      eth_usd_oracle = oracle1;
      usd_usd_oracle = oracle2;
      btc_usd_oracle = oracle3;
      dai_usd_oracle = oracle4;
    })

  -- The part of `initialize` behind the fee recipient.
  unfoldable pub initialize_with : Address → Address → Async SystemFixture
  initialize_with owner fee_recipient = do
    controller ← deploy_controller fee_recipient
    issuance_module ← deploy_basic_issuance_module controller
    tokens ← initialize_standard_components owner issuance_module
    _ ← deploy_integration_registry controller
    factory ← deploy_set_token_creator controller
    price_oracle ←
        deploy_price_oracle controller tokens.usdc []
          (tokens.weth ∷ tokens.usdc ∷ tokens.wbtc ∷ tokens.dai ∷ [])
          (tokens.usdc ∷ tokens.usdc ∷ tokens.usdc ∷ tokens.usdc ∷ [])
          (tokens.eth_usd_oracle ∷ tokens.usd_usd_oracle ∷ tokens.btc_usd_oracle
            ∷ tokens.dai_usd_oracle ∷ [])
    integration_registry ← deploy_integration_registry controller
    set_valuer ← deploy_set_valuer controller
    streaming_fee_module ← deploy_streaming_fee_module controller
    nav_issuance_module ← deploy_nav_issuance_module controller tokens.weth
    send controller "initialize" (
        addresses (factory ∷ [])
        ∷ addresses (issuance_module ∷ streaming_fee_module ∷ nav_issuance_module ∷ [])
        ∷ addresses (integration_registry ∷ price_oracle ∷ set_valuer ∷ [])
        ∷ numbers (pos 0 ∷ pos 1 ∷ pos 2 ∷ [])
        ∷ [])
    pure (record {
      owner = owner;
      fee_recipient = fee_recipient;
      controller = controller;
      factory = factory;
      price_oracle = price_oracle;
      integration_registry = integration_registry;
      set_valuer = set_valuer;
      issuance_module = issuance_module;
      streaming_fee_module = streaming_fee_module;
      nav_issuance_module = nav_issuance_module;
      components = tokens;
    })

  -- A constructor argument that is undefined is refused by ethers.
  unfoldable pub initialize : List Address → Address → Async SystemFixture
  initialize accounts owner = elim (fourth accounts) [
    | some fee_recipient ↦ initialize_with owner fee_recipient
    | none ↦ lift (err fault)
  ]

  -- `transaction_hash` is the hash in the answer to the latest request.
  unfoldable pub create_set_token :
      EventReader
      → (List Request → Option String)
      → SystemFixture
      → List Address
      → List ℤ
      → List Address
      → Address
      → String
      → String
      → Async Address
  create_set_token reader transaction_hash f components units modules manager name symbol = do
    send f.factory "create" (
        addresses components
        ∷ numbers units
        ∷ addresses modules
        ∷ address manager
        ∷ text name
        ∷ text symbol
        ∷ [])
    λ requests. get_created_set_token_address reader (transaction_hash requests) requests

  unfoldable pub create_non_controller_enabled_set_token :
      SystemFixture
      → List Address
      → List ℤ
      → List Address
      → Address
      → String
      → String
      → Async Address
  create_non_controller_enabled_set_token f components units modules manager name symbol =
      deploy_set_token components units modules f.controller manager name symbol

  -- The loop over the positions, each seen by its component.
  unfoldable pub approve_components : Address → List Address → Async (Unit {0})
  approve_components issuance_module [] = pure tt
  approve_components issuance_module (component ∷ rest) = do
    component_instance ← get_token_mock component
    send component_instance "approve" (address issuance_module ∷ number max_uint_256 ∷ [])
    approve_components issuance_module rest

  unfoldable pub approve_and_issue_set_token :
      SystemFixture → Address → ℤ → Address → Async (Unit {0})
  approve_and_issue_set_token f set_token issue_quantity to = do
    positions ← read_addresses set_token "getPositions" []
    approve_components f.issuance_module positions
    send f.issuance_module "issue" (address set_token ∷ number issue_quantity ∷ address to ∷ [])
