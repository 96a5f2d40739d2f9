-- ===== src/Utils/Fixtures/Compound.antt =====
-- utils/fixtures/compoundFixture.ts: the markets of Compound.
use set_protocol_v2_contract.Common.{String, [], ◌∷◌}
use set_protocol_v2_contract.Common.Integer.{ℤ, pos}
use set_protocol_v2_contract.External.Ethers.{BigNumber, EthersUtils}
use set_protocol_v2_contract.Utils.Constants.{address_zero, one_day_in_seconds, zero}
use set_protocol_v2_contract.Utils.Types.{Address}
use set_protocol_v2_contract.Utils.UnitsUtils.{ether}
use set_protocol_v2_contract.Utils.Network.{
  Network, Async, ◌>>=◌, ◌>>◌, pure, lift, send, address, addresses, number,
}
use set_protocol_v2_contract.Utils.Deploys.Compound.{
  deploy_compound_price_oracle_mock, deploy_price_oracle_proxy, deploy_unitroller,
  deploy_comptroller, deploy_white_paper_interest_rate_model, deploy_comp, deploy_compound_timelock,
  deploy_compound_governor_alpha, deploy_c_erc20, deploy_c_ether,
}

pub record CompoundFixture : Type 0 where
  pub unitroller : Address
  pub comp : Address
  pub compound_timelock : Address
  pub compound_governor_alpha : Address
  pub comptroller : Address
  pub interest_rate_model : Address
  pub price_oracle : Address
  pub price_oracle_proxy : Address

module _ ⦃net : Network⦄ where
  module _ ⦃bn : BigNumber⦄ ⦃utils : EthersUtils⦄ where
    unfoldable pub initialize : Address → Async CompoundFixture
    initialize owner_address = do
      price_oracle ← deploy_compound_price_oracle_mock
      price_oracle_proxy ←
          deploy_price_oracle_proxy address_zero price_oracle address_zero address_zero address_zero
            address_zero address_zero
      unitroller ← deploy_unitroller
      comptroller ← deploy_comptroller
      send unitroller "_setPendingImplementation" (address comptroller ∷ [])
      send comptroller "_become"
          (address unitroller ∷ number zero ∷ addresses [] ∷ addresses [] ∷ [])
      send comptroller "_setPriceOracle" (address price_oracle ∷ [])
      send comptroller "_setMaxAssets" (number (pos 10) ∷ [])
      close_factor ← lift (ether "0.5")
      send comptroller "_setCloseFactor" (number close_factor ∷ [])
      liquidation_incentive ← lift (ether "1.08")
      send comptroller "_setLiquidationIncentive" (number liquidation_incentive ∷ [])
      rate ← lift (ether "1")
      interest_rate_model ← deploy_white_paper_interest_rate_model rate rate
      comp ← deploy_comp owner_address
      amount ← lift (ether "400000")
      send comp "transfer" (address comptroller ∷ number amount ∷ [])
      compound_timelock ← deploy_compound_timelock owner_address (bn.mul one_day_in_seconds (pos 2))
      compound_governor_alpha ← deploy_compound_governor_alpha compound_timelock comp owner_address
      pure (record {
        unitroller = unitroller;
        comp = comp;
        compound_timelock = compound_timelock;
        compound_governor_alpha = compound_governor_alpha;
        comptroller = comptroller;
        interest_rate_model = interest_rate_model;
        price_oracle = price_oracle;
        price_oracle_proxy = price_oracle_proxy;
      })

  -- The three requests that list a new market, in the order in which the comptroller needs them.
  unfoldable pub enable_c_token : CompoundFixture → Address → ℤ → ℤ → Async (Unit {0})
  enable_c_token f c_token collateral_factor current_price = do
    send f.comptroller "_supportMarket" (address c_token ∷ [])
    send f.price_oracle "setUnderlyingPrice" (address c_token ∷ number current_price ∷ [])
    send f.comptroller "_setCollateralFactor" (address c_token ∷ number collateral_factor ∷ [])

  unfoldable pub create_and_enable_c_token :
      CompoundFixture
      → Address
      → ℤ
      → Address
      → Address
      → String
      → String
      → ℤ
      → ℤ
      → ℤ
      → Async Address
  create_and_enable_c_token f underlying initial_exchange_rate_mantissa comptroller
        interest_rate_model name symbol decimals collateral_factor current_price =
      do
        c_token ←
            deploy_c_erc20 underlying comptroller interest_rate_model initial_exchange_rate_mantissa
              name symbol decimals
        enable_c_token f c_token collateral_factor current_price
        pure c_token

  unfoldable pub create_and_enable_c_ether :
      CompoundFixture → ℤ → Address → Address → String → String → ℤ → ℤ → ℤ → Async Address
  create_and_enable_c_ether f initial_exchange_rate_mantissa comptroller interest_rate_model name
        symbol decimals collateral_factor current_price =
      do
        c_token ←
            deploy_c_ether comptroller interest_rate_model initial_exchange_rate_mantissa name
              symbol decimals
        enable_c_token f c_token collateral_factor current_price
        pure c_token
