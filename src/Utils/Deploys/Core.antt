-- ===== src/Utils/Deploys/Core.antt =====
-- utils/deploys/deployCoreContracts.ts, deployLibraries.ts, deployProduct.ts and deployViewers.ts.
use set_protocol_v2_contract.Common.{String, List, [], ◌∷◌}
use set_protocol_v2_contract.Common.Integer.{ℤ}
use set_protocol_v2_contract.Utils.Types.{Address}
use set_protocol_v2_contract.Utils.Network.{
  Network, Async, pure, deploy, address, addresses, numbers, text,
}

module _ ⦃net : Network⦄ where
  unfoldable pub deploy_controller : Address → Async Address
  deploy_controller fee_recipient = deploy "Controller" (address fee_recipient ∷ [])

  unfoldable pub deploy_set_token_creator : Address → Async Address
  deploy_set_token_creator controller = deploy "SetTokenCreator" (address controller ∷ [])

  unfoldable pub deploy_set_token :
      List Address → List ℤ → List Address → Address → Address → String → String → Async Address
  deploy_set_token components units modules controller manager name symbol = deploy "SetToken" (
      addresses components
      ∷ numbers units
      ∷ addresses modules
      ∷ address controller
      ∷ address manager
      ∷ text name
      ∷ text symbol
      ∷ [])

  unfoldable pub deploy_price_oracle :
      Address → Address → List Address → List Address → List Address → List Address → Async Address
  deploy_price_oracle controller master_quote_asset adapters asset_ones asset_twos oracles =
      deploy "PriceOracle" (
        address controller
        ∷ address master_quote_asset
        ∷ addresses adapters
        ∷ addresses asset_ones
        ∷ addresses asset_twos
        ∷ addresses oracles
        ∷ [])

  unfoldable pub deploy_integration_registry : Address → Async Address
  deploy_integration_registry controller = deploy "IntegrationRegistry" (address controller ∷ [])

  unfoldable pub deploy_set_valuer : Address → Async Address
  deploy_set_valuer controller = deploy "SetValuer" (address controller ∷ [])

  unfoldable pub deploy_compound : Async Address
  deploy_compound = deploy "Compound" []

  unfoldable pub deploy_protocol_viewer : Async Address
  deploy_protocol_viewer = deploy "ProtocolViewer" []

  unfoldable pub deploy_uniswap_yield_hook : List Address → List ℤ → Async Address
  deploy_uniswap_yield_hook assets limits =
      deploy "UniswapYieldHook" (addresses assets ∷ numbers limits ∷ [])

  unfoldable pub deploy_asset_limit_hook : List Address → List ℤ → Async Address
  deploy_asset_limit_hook assets limits =
      deploy "AssetLimitHook" (addresses assets ∷ numbers limits ∷ [])

  -- `attach` makes the handle of a contract that is there, and asks nothing of the chain.
  unfoldable pub get_controller : Address → Async Address
  get_controller controller_address = pure controller_address

  unfoldable pub get_set_token_creator : Address → Async Address
  get_set_token_creator set_token_creator_address = pure set_token_creator_address

  unfoldable pub get_set_token : Address → Async Address
  get_set_token set_token_address = pure set_token_address

  unfoldable pub get_price_oracle : Address → Async Address
  get_price_oracle price_oracle_address = pure price_oracle_address

  unfoldable pub get_integration_registry : Address → Async Address
  get_integration_registry integration_registry_address = pure integration_registry_address
