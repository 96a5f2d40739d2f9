-- ===== src/Utils/Deploys/Mocks.antt =====
-- utils/deploys/deployMocks.ts: mock tokens, oracles and adapters. A default argument is an argument here.
use set_protocol_v2_contract.Common.{String, List, [], ◌∷◌}
use set_protocol_v2_contract.Common.Integer.{ℤ}
use set_protocol_v2_contract.Utils.Types.{Address}
use set_protocol_v2_contract.Utils.Network.{
  Network, Async, pure, deploy, address, addresses, number, text,
}

module _ ⦃net : Network⦄ where
  unfoldable pub deploy_explicit_erc20_mock : Async Address
  deploy_explicit_erc20_mock = deploy "ExplicitERC20Mock" []

  unfoldable pub deploy_invoke_mock : Async Address
  deploy_invoke_mock = deploy "InvokeMock" []

  unfoldable pub deploy_manager_issuance_hook_mock : Async Address
  deploy_manager_issuance_hook_mock = deploy "ManagerIssuanceHookMock" []

  unfoldable pub deploy_module_issuance_hook_mock : Async Address
  deploy_module_issuance_hook_mock = deploy "ModuleIssuanceHookMock" []

  unfoldable pub deploy_nav_issuance_hook_mock : Async Address
  deploy_nav_issuance_hook_mock = deploy "NAVIssuanceHookMock" []

  unfoldable pub deploy_custom_set_valuer_mock : Async Address
  deploy_custom_set_valuer_mock = deploy "CustomSetValuerMock" []

  unfoldable pub deploy_nav_issuance_caller : Address → Async Address
  deploy_nav_issuance_caller nav_issuance_module =
      deploy "NAVIssuanceCaller" (address nav_issuance_module ∷ [])

  unfoldable pub deploy_address_array_utils_mock : Async Address
  deploy_address_array_utils_mock = deploy "AddressArrayUtilsMock" []

  unfoldable pub deploy_uint256_array_utils_mock : Async Address
  deploy_uint256_array_utils_mock = deploy "Uint256ArrayUtilsMock" []

  unfoldable pub deploy_kyber_network_proxy_mock : Address → Async Address
  deploy_kyber_network_proxy_mock mock_weth_address =
      deploy "KyberNetworkProxyMock" (address mock_weth_address ∷ [])

  unfoldable pub deploy_module_base_mock : Address → Async Address
  deploy_module_base_mock controller_address =
      deploy "ModuleBaseMock" (address controller_address ∷ [])

  unfoldable pub deploy_god_mode_mock : Address → Async Address
  deploy_god_mode_mock controller_address = deploy "GodModeMock" (address controller_address ∷ [])

  unfoldable pub deploy_debt_module_mock : Address → Address → Async Address
  deploy_debt_module_mock controller_address module_address =
      deploy "DebtModuleMock" (address controller_address ∷ address module_address ∷ [])

  unfoldable pub deploy_governance_adapter_mock : ℤ → Async Address
  deploy_governance_adapter_mock initial_proposal_id =
      deploy "GovernanceAdapterMock" (number initial_proposal_id ∷ [])

  unfoldable pub deploy_one_inch_exchange_mock : Address → Address → ℤ → ℤ → Async Address
  deploy_one_inch_exchange_mock send_token receive_token send_quantity receive_quantity =
      deploy "OneInchExchangeMock" (
        address send_token
        ∷ address receive_token
        ∷ number send_quantity
        ∷ number receive_quantity
        ∷ [])

  unfoldable pub deploy_zero_ex_mock : Address → Address → ℤ → ℤ → Async Address
  deploy_zero_ex_mock send_token receive_token send_quantity receive_quantity =
      deploy "ZeroExMock" (
        address send_token
        ∷ address receive_token
        ∷ number send_quantity
        ∷ number receive_quantity
        ∷ [])

  unfoldable pub deploy_oracle_mock : ℤ → Async Address
  deploy_oracle_mock initial_value = deploy "OracleMock" (number initial_value ∷ [])

  unfoldable pub deploy_oracle_adapter_mock : Address → ℤ → Async Address
  deploy_oracle_adapter_mock asset dummy_price =
      deploy "OracleAdapterMock" (address asset ∷ number dummy_price ∷ [])

  unfoldable pub deploy_position_mock : Async Address
  deploy_position_mock = deploy "PositionMock" []

  unfoldable pub deploy_precise_unit_math_mock : Async Address
  deploy_precise_unit_math_mock = deploy "PreciseUnitMathMock" []

  unfoldable pub deploy_resource_identifier_mock : Async Address
  deploy_resource_identifier_mock = deploy "ResourceIdentifierMock" []

  unfoldable pub deploy_staking_adapter_mock : Address → Async Address
  deploy_staking_adapter_mock staking_asset =
      deploy "StakingAdapterMock" (address staking_asset ∷ [])

  unfoldable pub deploy_token_mock : Address → ℤ → ℤ → String → String → Async Address
  deploy_token_mock initial_account initial_balance decimals name symbol =
      deploy "StandardTokenMock" (
        address initial_account
        ∷ number initial_balance
        ∷ text name
        ∷ text symbol
        ∷ number decimals
        ∷ [])

  unfoldable pub deploy_token_with_fee_mock : Address → ℤ → ℤ → String → String → Async Address
  deploy_token_with_fee_mock initial_account initial_balance fee name symbol =
      deploy "StandardTokenWithFeeMock" (
        address initial_account
        ∷ number initial_balance
        ∷ text name
        ∷ text symbol
        ∷ number fee
        ∷ [])

  unfoldable pub deploy_trade_adapter_mock : Async Address
  deploy_trade_adapter_mock = deploy "TradeAdapterMock" []

  unfoldable pub deploy_amm_adapter_mock : List Address → Async Address
  deploy_amm_adapter_mock underlying_tokens =
      deploy "AmmAdapterMock" (addresses underlying_tokens ∷ [])

  unfoldable pub deploy_wrap_adapter_mock : Async Address
  deploy_wrap_adapter_mock = deploy "WrapAdapterMock" []

  unfoldable pub deploy_aave_lending_pool_core_mock : Async Address
  deploy_aave_lending_pool_core_mock = deploy "AaveLendingPoolCoreMock" []

  unfoldable pub deploy_aave_lending_pool_mock : Address → Async Address
  deploy_aave_lending_pool_mock aave_lending_pool_core =
      deploy "AaveLendingPoolMock" (address aave_lending_pool_core ∷ [])

  unfoldable pub deploy_claim_adapter_mock : Async Address
  deploy_claim_adapter_mock = deploy "ClaimAdapterMock" []

  unfoldable pub deploy_gauge_controller_mock : Async Address
  deploy_gauge_controller_mock = deploy "GaugeControllerMock" []

  unfoldable pub deploy_contract_caller_mock : Async Address
  deploy_contract_caller_mock = deploy "ContractCallerMock" []

  unfoldable pub deploy_debt_issuance_mock : Async Address
  deploy_debt_issuance_mock = deploy "DebtIssuanceMock" []

  unfoldable pub deploy_comptroller_mock : Address → ℤ → Address → Async Address
  deploy_comptroller_mock comp comp_amount c_token =
      deploy "ComptrollerMock" (address comp ∷ number comp_amount ∷ address c_token ∷ [])

  unfoldable pub get_token_mock : Address → Async Address
  get_token_mock token = pure token
