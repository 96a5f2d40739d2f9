-- ===== src/Utils/Deploys/Compound.antt =====
-- utils/deploys/deployExternal.ts: the contracts of Compound.
use set_protocol_v2_contract.Common.{String, [], ◌∷◌}
use set_protocol_v2_contract.Common.Integer.{ℤ}
use set_protocol_v2_contract.Utils.Types.{Address}
use set_protocol_v2_contract.Utils.Network.{Network, Async, deploy, address, number, text}

module _ ⦃net : Network⦄ where
  unfoldable pub deploy_comp : Address → Async Address
  deploy_comp account = deploy "Comp" (address account ∷ [])

  unfoldable pub deploy_compound_timelock : Address → ℤ → Async Address
  deploy_compound_timelock admin delay =
      deploy "CompoundTimelock" (address admin ∷ number delay ∷ [])

  unfoldable pub deploy_compound_governor_alpha : Address → Address → Address → Async Address
  deploy_compound_governor_alpha timelock comp guardian =
      deploy "CompoundGovernorAlpha" (address timelock ∷ address comp ∷ address guardian ∷ [])

  unfoldable pub deploy_compound_governor_bravo_delegate : Async Address
  deploy_compound_governor_bravo_delegate = deploy "CompoundGovernorBravoDelegate" []

  unfoldable pub deploy_compound_governor_bravo_delegator :
      Address → Address → Address → Address → ℤ → ℤ → ℤ → Async Address
  deploy_compound_governor_bravo_delegator timelock comp admin implementation voting_period
        voting_delay proposal_threshold =
      deploy "CompoundGovernorBravoDelegator" (
        address timelock
        ∷ address comp
        ∷ address admin
        ∷ address implementation
        ∷ number voting_period
        ∷ number voting_delay
        ∷ number proposal_threshold
        ∷ [])

  unfoldable pub deploy_c_erc20 :
      Address → Address → Address → ℤ → String → String → ℤ → Async Address
  deploy_c_erc20 underlying comptroller interest_rate_model initial_exchange_rate_mantissa name
        symbol decimals =
      deploy "CERc20" (
        address underlying
        ∷ address comptroller
        ∷ address interest_rate_model
        ∷ number initial_exchange_rate_mantissa
        ∷ text name
        ∷ text symbol
        ∷ number decimals
        ∷ [])

  unfoldable pub deploy_c_ether : Address → Address → ℤ → String → String → ℤ → Async Address
  deploy_c_ether comptroller interest_rate_model initial_exchange_rate_mantissa name symbol
        decimals =
      deploy "CEther" (
        address comptroller
        ∷ address interest_rate_model
        ∷ number initial_exchange_rate_mantissa
        ∷ text name
        ∷ text symbol
        ∷ number decimals
        ∷ [])

  unfoldable pub deploy_compound_price_oracle_mock : Async Address
  deploy_compound_price_oracle_mock = deploy "CompoundPriceOracleMock" []

  unfoldable pub deploy_price_oracle_proxy :
      Address → Address → Address → Address → Address → Address → Address → Async Address
  deploy_price_oracle_proxy guardian v1_price_oracle c_eth_address c_usdc_address c_sai_address
        c_dai_address c_usdt_address =
      deploy "PriceOracleProxy" (
        address guardian
        ∷ address v1_price_oracle
        ∷ address c_eth_address
        ∷ address c_usdc_address
        ∷ address c_sai_address
        ∷ address c_dai_address
        ∷ address c_usdt_address
        ∷ [])

  unfoldable pub deploy_comptroller : Async Address
  deploy_comptroller = deploy "Comptroller" []

  unfoldable pub deploy_unitroller : Async Address
  deploy_unitroller = deploy "Unitroller" []

  unfoldable pub deploy_white_paper_interest_rate_model : ℤ → ℤ → Async Address
  deploy_white_paper_interest_rate_model base_rate multiplier =
      deploy "WhitePaperInterestRateModel" (number base_rate ∷ number multiplier ∷ [])
