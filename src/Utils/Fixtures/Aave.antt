-- ===== src/Utils/Fixtures/Aave.antt =====
-- utils/fixtures/aaveFixture.ts: the lending pool, the migration and the governance of Aave.
use set_protocol_v2_contract.Common.{String, [], ◌∷◌}
use set_protocol_v2_contract.Common.Integer.{ℤ, pos}
use set_protocol_v2_contract.External.Ethers.{EthersUtils}
use set_protocol_v2_contract.Utils.Constants.{max_uint_256}
use set_protocol_v2_contract.Utils.Types.{Address}
use set_protocol_v2_contract.Utils.UnitsUtils.{ether}
use set_protocol_v2_contract.Utils.Network.{
  Network, Async, ◌>>=◌, ◌>>◌, pure, lift, send, send_unawaited, read_address, address, number,
  text,
}
use set_protocol_v2_contract.Utils.Deploys.Aave.{
  deploy_aave_proto_governance, deploy_governance_params_provider, deploy_aave_proposition_power,
  deploy_asset_voting_weight_provider, deploy_lending_pool_addresses_provider, deploy_core_library,
  deploy_lending_pool, deploy_lending_pool_core, deploy_lending_pool_configurator,
  deploy_default_reserve_interest_rate_strategy, deploy_lending_rate_oracle,
  deploy_lending_pool_data_provider, deploy_lend_to_aave_migrator, deploy_aave_governance_v2,
  deploy_executor, deploy_governance_strategy, deploy_aave_token_v2_mintable,
}
use set_protocol_v2_contract.Utils.Deploys.Mocks.{deploy_token_mock}

pub record LendingPool : Type 0 where
  pub lending_pool_addresses_provider : Address
  pub lending_pool : Address
  pub core_library : Address
  pub lending_pool_core : Address
  pub lending_pool_configurator : Address
  pub lending_rate_oracle : Address
  pub lending_pool_data_provider : Address
  pub reserve_interest_rate_strategy : Address

pub record Migration : Type 0 where
  pub lend_token : Address
  pub aave_token : Address
  pub aave_exchange_ratio : ℤ
  pub lend_to_aave_migrator : Address

pub record Governance : Type 0 where
  pub asset_voting_weight_power : Address
  pub aave_proposition_power : Address
  pub governance_params_provider : Address
  pub aave_proto_governance : Address

pub record GovernanceV2 : Type 0 where
  pub executor : Address
  pub stk_aave_token : Address
  pub governance_strategy : Address
  pub aave_governance_v2 : Address

pub record AaveFixture : Type 0 where
  pub pool : LendingPool
  pub migration : Migration
  pub governance : Governance
  pub governance_v2 : GovernanceV2

-- `owner` is the address of the signer.
module _ ⦃net : Network⦄ where
  module _ ⦃utils : EthersUtils⦄ where
    -- Each implementation is replaced by the proxy that the provider answers.
    unfoldable pub initialize_lending_pool : Address → Async LendingPool
    initialize_lending_pool owner = do
      provider ← deploy_lending_pool_addresses_provider
      pool ← deploy_lending_pool
      core_library ← deploy_core_library
      core ← deploy_lending_pool_core core_library
      configurator ← deploy_lending_pool_configurator
      oracle ← deploy_lending_rate_oracle
      data_provider ← deploy_lending_pool_data_provider
      send provider "setLendingPoolManager" (address owner ∷ [])
      send provider "setLendingRateOracle" (address oracle ∷ [])
      send provider "setLendingPoolCoreImpl" (address core ∷ [])
      proxy_core ← read_address provider "getLendingPoolCore" []
      send provider "setLendingPoolDataProviderImpl" (address data_provider ∷ [])
      proxy_data_provider ← read_address provider "getLendingPoolDataProvider" []
      send provider "setLendingPoolImpl" (address pool ∷ [])
      proxy_pool ← read_address provider "getLendingPool" []
      send provider "setLendingPoolConfiguratorImpl" (address configurator ∷ [])
      proxy_configurator ← read_address provider "getLendingPoolConfigurator" []
      send proxy_configurator "refreshLendingPoolCoreConfiguration" []
      one_ether ← lift (ether "1")
      strategy ←
          deploy_default_reserve_interest_rate_strategy proxy_core provider one_ether one_ether
            one_ether one_ether one_ether
      pure (record {
        lending_pool_addresses_provider = provider;
        lending_pool = proxy_pool;
        core_library = core_library;
        lending_pool_core = proxy_core;
        lending_pool_configurator = proxy_configurator;
        lending_rate_oracle = oracle;
        lending_pool_data_provider = proxy_data_provider;
        reserve_interest_rate_strategy = strategy;
      })

    unfoldable pub initialize_migration : Address → Async Migration
    initialize_migration owner = do
      lend_supply ← lift (ether "1000000")
      lend_token ← deploy_token_mock owner lend_supply (pos 18) "Token" "Symbol"
      aave_token ← deploy_aave_token_v2_mintable
      aave_supply ← lift (ether "100000")
      send aave_token "mint" (address owner ∷ number aave_supply ∷ [])
      migrator ← deploy_lend_to_aave_migrator aave_token lend_token (pos 100)
      pure (record {
        lend_token = lend_token;
        aave_token = aave_token;
        aave_exchange_ratio = pos 100;
        lend_to_aave_migrator = migrator;
      })

    unfoldable pub initialize_governance : Address → Migration → Async Governance
    initialize_governance owner migration = do
      weights ←
          deploy_asset_voting_weight_provider (migration.aave_token ∷ migration.lend_token ∷ [])
            (pos 1 ∷ pos 1 ∷ [])
      power ←
          deploy_aave_proposition_power "Aave Proposition Power" "APP" (pos 18) (owner ∷ []) (pos 1)
      params ← deploy_governance_params_provider (pos 1) power weights
      proto_governance ← deploy_aave_proto_governance params
      pure (record {
        asset_voting_weight_power = weights;
        aave_proposition_power = power;
        governance_params_provider = params;
        aave_proto_governance = proto_governance;
      })

    -- What the migrator gets, so that it can change the one token for the other.
    unfoldable pub fund_migrator : Migration → Async (Unit {0})
    fund_migrator migration = do
      let migrator = migration.lend_to_aave_migrator
      lend_amount ← lift (ether "10000")
      send migration.lend_token "transfer" (address migrator ∷ number lend_amount ∷ [])
      aave_amount ← lift (ether "100")
      send migration.aave_token "transfer" (address migrator ∷ number aave_amount ∷ [])
      send migrator "initialize" []

    -- The last two recipients are random addresses. Three transactions are not awaited.
    unfoldable pub initialize_governance_v2 :
        Address → Migration → Address → Address → Async GovernanceV2
    initialize_governance_v2 owner migration first_recipient second_recipient = do
      minimum_quorum ← lift (ether "100")
      executor ←
          deploy_executor owner (pos 0) (pos 0) (pos 0) max_uint_256 (pos 50) (pos 100) (pos 50)
            minimum_quorum
      stk_aave_token ← deploy_aave_token_v2_mintable
      stk_aave_supply ← lift (ether "100000")
      send_unawaited stk_aave_token "mint" (address owner ∷ number stk_aave_supply ∷ [])
      governance_strategy ← deploy_governance_strategy migration.aave_token stk_aave_token
      aave_governance_v2 ←
          deploy_aave_governance_v2 governance_strategy (pos 0) owner (executor ∷ [])
      send_unawaited migration.aave_token "transfer"
          (address first_recipient ∷ number (pos 100) ∷ [])
      send_unawaited stk_aave_token "transfer" (address second_recipient ∷ number (pos 100) ∷ [])
      pure (record {
        executor = executor;
        stk_aave_token = stk_aave_token;
        governance_strategy = governance_strategy;
        aave_governance_v2 = aave_governance_v2;
      })

    unfoldable pub initialize : Address → Address → Address → Async AaveFixture
    initialize owner first_recipient second_recipient = do
      pool ← initialize_lending_pool owner
      migration ← initialize_migration owner
      governance ← initialize_governance owner migration
      fund_migrator migration
      governance_v2 ← initialize_governance_v2 owner migration first_recipient second_recipient
      pure (record {
        pool = pool;
        migration = migration;
        governance = governance;
        governance_v2 = governance_v2;
      })

  unfoldable pub deploy_a_token : LendingPool → Address → ℤ → Async Address
  deploy_a_token pool underlying_asset decimals = do
    send pool.lending_pool_configurator "initReserve" (
        address underlying_asset
        ∷ number decimals
        ∷ address pool.reserve_interest_rate_strategy
        ∷ [])
    read_address pool.lending_pool_core "getReserveATokenAddress" (address underlying_asset ∷ [])

  unfoldable pub deploy_eth_a_token : LendingPool → Address → String → String → ℤ → Async Address
  deploy_eth_a_token pool underlying_asset name symbol decimals = do
    send pool.lending_pool_configurator "initReserveWithData" (
        address underlying_asset
        ∷ text name
        ∷ text symbol
        ∷ number decimals
        ∷ address pool.reserve_interest_rate_strategy
        ∷ [])
    read_address pool.lending_pool_core "getReserveATokenAddress" (address underlying_asset ∷ [])
