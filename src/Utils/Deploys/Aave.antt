-- ===== src/Utils/Deploys/Aave.antt =====
-- utils/deploys/deployExternal.ts: the contracts of Aave.
use set_protocol_v2_contract.Common.{String, List, [], ◌∷◌}
use set_protocol_v2_contract.Common.Integer.{ℤ}
use set_protocol_v2_contract.Utils.Types.{Address}
use set_protocol_v2_contract.Utils.Network.{
  Network, Async, pure, deploy, deploy_linked, address, addresses, number, numbers, text,
}

module _ ⦃net : Network⦄ where
  unfoldable pub deploy_aave_proto_governance : Address → Async Address
  deploy_aave_proto_governance gov_params_provider =
      deploy "AaveProtoGovernance" (address gov_params_provider ∷ [])

  unfoldable pub deploy_governance_params_provider : ℤ → Address → Address → Async Address
  deploy_governance_params_provider proposition_power_threshold proposition_power
        asset_voting_weight_provider =
      deploy "GovernanceParamsProvider" (
        number proposition_power_threshold
        ∷ address proposition_power
        ∷ address asset_voting_weight_provider
        ∷ [])

  unfoldable pub deploy_aave_proposition_power :
      String → String → ℤ → List Address → ℤ → Async Address
  deploy_aave_proposition_power name symbol decimals council cap =
      deploy "AavePropositionPower"
        (text name ∷ text symbol ∷ number decimals ∷ addresses council ∷ number cap ∷ [])

  unfoldable pub deploy_asset_voting_weight_provider : List Address → List ℤ → Async Address
  deploy_asset_voting_weight_provider assets weights =
      deploy "AssetVotingWeightProvider" (addresses assets ∷ numbers weights ∷ [])

  unfoldable pub deploy_lending_pool_addresses_provider : Async Address
  deploy_lending_pool_addresses_provider = deploy "LendingPoolAddressesProvider" []

  unfoldable pub deploy_core_library : Async Address
  deploy_core_library = deploy "CoreLibrary" []

  unfoldable pub deploy_lending_pool_core : Address → Async Address
  deploy_lending_pool_core core_library_address =
      deploy_linked "LendingPoolCore" "__CoreLibrary___________________________"
        core_library_address []

  unfoldable pub deploy_lending_pool : Async Address
  deploy_lending_pool = deploy "LendingPool" []

  unfoldable pub deploy_lending_pool_configurator : Async Address
  deploy_lending_pool_configurator = deploy "LendingPoolConfigurator" []

  unfoldable pub deploy_default_reserve_interest_rate_strategy :
      Address → Address → ℤ → ℤ → ℤ → ℤ → ℤ → Async Address
  deploy_default_reserve_interest_rate_strategy reserve address_provider base_variable_borrow_rate
        variable_rate_slope1 variable_rate_slope2 stable_rate_slope1 stable_rate_slope2 =
      deploy "DefaultReserveInterestRateStrategy" (
        address reserve
        ∷ address address_provider
        ∷ number base_variable_borrow_rate
        ∷ number variable_rate_slope1
        ∷ number variable_rate_slope2
        ∷ number stable_rate_slope1
        ∷ number stable_rate_slope2
        ∷ [])

  unfoldable pub deploy_lending_rate_oracle : Async Address
  deploy_lending_rate_oracle = deploy "LendingRateOracle" []

  unfoldable pub deploy_lending_pool_data_provider : Async Address
  deploy_lending_pool_data_provider = deploy "LendingPoolDataProvider" []

  unfoldable pub deploy_lend_to_aave_migrator : Address → Address → ℤ → Async Address
  deploy_lend_to_aave_migrator aave_token lend_token aave_lend_ratio =
      deploy "LendToAaveMigrator"
        (address aave_token ∷ address lend_token ∷ number aave_lend_ratio ∷ [])

  unfoldable pub get_lend_to_aave_migrator : Address → Async Address
  get_lend_to_aave_migrator lend_to_aave_migrator_address = pure lend_to_aave_migrator_address

  unfoldable pub deploy_aave_governance_v2 : Address → ℤ → Address → List Address → Async Address
  deploy_aave_governance_v2 governance_strategy voting_delay guardian executors =
      deploy "AaveGovernanceV2" (
        address governance_strategy
        ∷ number voting_delay
        ∷ address guardian
        ∷ addresses executors
        ∷ [])

  unfoldable pub deploy_executor : Address → ℤ → ℤ → ℤ → ℤ → ℤ → ℤ → ℤ → ℤ → Async Address
  deploy_executor admin delay grace_period minimum_delay maximum_delay proposition_threshold
        vote_duration vote_differential minmum_quorum =
      deploy "Executor" (
        address admin
        ∷ number delay
        ∷ number grace_period
        ∷ number minimum_delay
        ∷ number maximum_delay
        ∷ number proposition_threshold
        ∷ number vote_duration
        ∷ number vote_differential
        ∷ number minmum_quorum
        ∷ [])

  unfoldable pub deploy_governance_strategy : Address → Address → Async Address
  deploy_governance_strategy aave stkaave =
      deploy "GovernanceStrategy" (address aave ∷ address stkaave ∷ [])

  unfoldable pub deploy_aave_token_v2_mintable : Async Address
  deploy_aave_token_v2_mintable = deploy "AaveTokenV2Mintable" []
