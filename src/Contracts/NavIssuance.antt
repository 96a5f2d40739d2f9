-- ===== src/Contracts/NavIssuance.antt =====
-- contracts/protocol/modules/NAVIssuanceModule.sol: the settings of the manager. What the module
-- computes stands in Quantities, and what issues and redeems in Actions.
pub mod Quantities
pub mod Actions
pub mod Solvency
pub mod ReserveAssets
pub mod Limits
use set_protocol_v2_contract.Common.{
  ℕ, ◌^◌, Bool, true, false, not, ◌&&◌, List, [], ◌∷◌, ◌++◌, Result, ok, ◌>>=◌, ◌>>◌, require, ltb,
  leb, ◌==◌,
}
use set_protocol_v2_contract.Common.Lists.{length, set}
use set_protocol_v2_contract.Contracts.AddressArrayUtils.{at, remove}
use set_protocol_v2_contract.Contracts.Storage.{update}
use set_protocol_v2_contract.Contracts.Controller.{Controller}
use set_protocol_v2_contract.Contracts.SetToken.{SetToken, initialize_module}
use set_protocol_v2_contract.Contracts.ModuleBase.{
  require_set_manager, require_valid_and_initialized_set, require_valid_and_pending_set,
}

-- `manager_fees` is an array of two: the fee of an issue and of a redemption.
pub record NavIssuanceSettings : Type 0 where
  pub manager_issuance_hook : ℕ
  pub manager_redemption_hook : ℕ
  pub reserve_assets : List ℕ
  pub fee_recipient : ℕ
  pub manager_fees : List ℕ
  pub max_manager_fee : ℕ
  pub premium_percentage : ℕ
  pub max_premium_percentage : ℕ
  pub min_set_token_supply : ℕ

abbrev pub no_settings : NavIssuanceSettings
no_settings = record {
  manager_issuance_hook = 0;
  manager_redemption_hook = 0;
  reserve_assets = [];
  fee_recipient = 0;
  manager_fees = 0 ∷ 0 ∷ [];
  max_manager_fee = 0;
  premium_percentage = 0;
  max_premium_percentage = 0;
  min_set_token_supply = 0;
}

-- `S` is what lies outside the repository: the reserve assets and the other contracts.
pub record World (S : Type 0) : Type 0 where
  pub controller : Controller
  pub tokens : ℕ → SetToken
  pub nav_issuance_settings : ℕ → NavIssuanceSettings
  pub is_reserve_asset : ℕ → ℕ → Bool
  pub outside : S

abbrev pub put_token : {S : Type 0} → World S → ℕ → SetToken → World S
put_token w set_token t = record w { tokens = update w.tokens set_token t }

abbrev pub put_settings : {S : Type 0} → World S → ℕ → NavIssuanceSettings → World S
put_settings w set_token s = record w {
  nav_issuance_settings = update w.nav_issuance_settings set_token s;
}

abbrev pub put_reserve : {S : Type 0} → World S → ℕ → ℕ → Bool → World S
put_reserve w set_token asset b = record w {
  is_reserve_asset =
      update w.is_reserve_asset set_token (update (w.is_reserve_asset set_token) asset b);
}

-- The loop of `initialize` over the reserve assets, on the token's mapping.
unfoldable pub mark_reserves : List ℕ → (ℕ → Bool) → Result (ℕ → Bool)
mark_reserves [] m = ok m
mark_reserves (a ∷ rest) m = do
  require (not (m a)) "Reserve assets must be unique"
  mark_reserves rest (update m a true)

-- The loop of `removeModule`.
unfoldable pub unmark_reserves : List ℕ → (ℕ → Bool) → ℕ → Bool
unmark_reserves [] m = m
unmark_reserves (a ∷ rest) m = unmark_reserves rest (update m a false)

-- `this` is the address of the module.
module _ {S : Type 0} (this : ℕ) where
  unfoldable pub only_manager_and_valid_set : World S → ℕ → ℕ → Result (Unit {0})
  only_manager_and_valid_set w sender set_token = do
    require_set_manager (w.tokens set_token) sender
    require_valid_and_initialized_set w.controller this set_token (w.tokens set_token)

  unfoldable pub add_reserve_asset : World S → ℕ → ℕ → ℕ → Result (World S)
  add_reserve_asset w sender set_token asset = do
    only_manager_and_valid_set w sender set_token
    require (not (w.is_reserve_asset set_token asset)) "Reserve asset already exists"
    let s = w.nav_issuance_settings set_token
    ok (
        put_reserve
          (put_settings w set_token (record s { reserve_assets = s.reserve_assets ++ asset ∷ [] }))
          set_token asset true)

  unfoldable pub remove_reserve_asset : World S → ℕ → ℕ → ℕ → Result (World S)
  remove_reserve_asset w sender set_token asset = do
    only_manager_and_valid_set w sender set_token
    require (w.is_reserve_asset set_token asset) "Reserve asset does not exist"
    let s = w.nav_issuance_settings set_token
    assets ← remove s.reserve_assets asset
    ok (
        put_reserve (put_settings w set_token (record s { reserve_assets = assets })) set_token
          asset false)

  unfoldable pub edit_premium : World S → ℕ → ℕ → ℕ → Result (World S)
  edit_premium w sender set_token premium_percentage = do
    only_manager_and_valid_set w sender set_token
    let s = w.nav_issuance_settings set_token
    require (leb premium_percentage s.max_premium_percentage)
        "Premium must be less than maximum allowed"
    ok (put_settings w set_token (record s { premium_percentage = premium_percentage }))

  -- A write out of the array reverts.
  unfoldable pub edit_manager_fee : World S → ℕ → ℕ → ℕ → ℕ → Result (World S)
  edit_manager_fee w sender set_token manager_fee_percentage manager_fee_index = do
    only_manager_and_valid_set w sender set_token
    let s = w.nav_issuance_settings set_token
    require (leb manager_fee_percentage s.max_manager_fee)
        "Manager fee must be less than maximum allowed"
    previous ← at s.manager_fees manager_fee_index
    ok (
        put_settings w set_token
          (record s { manager_fees = set s.manager_fees manager_fee_index manager_fee_percentage }))

  unfoldable pub edit_fee_recipient : World S → ℕ → ℕ → ℕ → Result (World S)
  edit_fee_recipient w sender set_token manager_fee_recipient = do
    only_manager_and_valid_set w sender set_token
    require (not (manager_fee_recipient == 0)) "Fee recipient must not be 0 address"
    let s = w.nav_issuance_settings set_token
    ok (put_settings w set_token (record s { fee_recipient = manager_fee_recipient }))

  unfoldable pub initialize : World S → ℕ → ℕ → NavIssuanceSettings → Result (World S)
  initialize w sender set_token settings = do
    require_set_manager (w.tokens set_token) sender
    require_valid_and_pending_set w.controller this set_token (w.tokens set_token)
    require (ltb 0 (length settings.reserve_assets)) "Reserve assets must be greater than 0"
    require (ltb settings.max_manager_fee (10 ^ 18)) "Max manager fee must be less than 100%"
    require (ltb settings.max_premium_percentage (10 ^ 18))
        "Max premium percentage must be less than 100%"
    issue_fee ← at settings.manager_fees 0
    require (leb issue_fee settings.max_manager_fee) "Manager issue fee must be less than max"
    redeem_fee ← at settings.manager_fees 1
    require (leb redeem_fee settings.max_manager_fee) "Manager redeem fee must be less than max"
    require (leb settings.premium_percentage settings.max_premium_percentage)
        "Premium must be less than max"
    require (not (settings.fee_recipient == 0)) "Fee Recipient must be non-zero address."
    require (ltb 0 settings.min_set_token_supply) "Min SetToken supply must be greater than 0"
    marks ← mark_reserves settings.reserve_assets (w.is_reserve_asset set_token)
    t ← initialize_module (w.tokens set_token) this
    let marked = record w { is_reserve_asset = update w.is_reserve_asset set_token marks }
    ok (put_token (put_settings marked set_token settings) set_token t)

-- The sender is the token that removes the module.
unfoldable pub remove_module : {S : Type 0} → World S → ℕ → World S
remove_module w sender =
    let assets = (w.nav_issuance_settings sender).reserve_assets in
    put_settings
      (record w {
        is_reserve_asset =
            update w.is_reserve_asset sender (unmark_reserves assets (w.is_reserve_asset sender));
      })
      sender no_settings
