-- ===== src/Contracts/NavIssuance/Limits.antt =====
-- contracts/protocol/modules/NAVIssuanceModule.sol: the settings that the module reaches.
use set_protocol_v2_contract.Common.{
  ℕ, ◌^◌, ◌<◌, ◌≤◌, ◌≡◌, Bool, false, true, List, [], ◌∷◌, ok, sym, subst, arith, ltb, Bool-cases,
  bind-inversion, require-inversion, ok_injective, not, leb, ◌++◌, ◌==◌, inl, inr, if◌then◌else◌,
}
use set_protocol_v2_contract.Common.Lists.{count, set, length}
use set_protocol_v2_contract.Contracts.Storage.{update}
use set_protocol_v2_contract.Contracts.AddressArrayUtils.{at, remove}
use set_protocol_v2_contract.Contracts.Controller.{Controller}
use set_protocol_v2_contract.Contracts.SetToken.{SetToken, initialize_module}
use set_protocol_v2_contract.Contracts.ModuleBase.{
  require_set_manager, require_valid_and_pending_set,
}
use set_protocol_v2_contract.Contracts.NavIssuance.{
  World, NavIssuanceSettings, no_settings, mark_reserves, add_reserve_asset, remove_reserve_asset,
  edit_premium, edit_manager_fee, edit_fee_recipient, initialize, remove_module,
  only_manager_and_valid_set,
}
use set_protocol_v2_contract.Contracts.NavIssuance.ReserveAssets.{
  mark_reserves-count, push-listed, remove-listed, set-bound,
}

abbrev pub HasCappedFees : List ℕ → ℕ → Type 0
HasCappedFees fees maximum =
    ((n : ℕ) → at fees 0 ≡ ok n → n ≤ maximum)
    × ((n : ℕ) → at fees 1 ≡ ok n → n ≤ maximum)
    × (maximum < 10 ^ 18)

abbrev pub IsBelowMaximum : ℕ → ℕ → Type 0
IsBelowMaximum premium maximum = (premium ≤ maximum) × (maximum < 10 ^ 18)

-- The fees and the premium are at most their maxima, which are below 100%; the array of reserve
-- assets lists only what the mapping has, and each asset once.
pub record IsWithinLimits (s : NavIssuanceSettings) (is_reserve : ℕ → Bool) : Type 0 where
  pub fees : HasCappedFees s.manager_fees s.max_manager_fee
  pub premium : IsBelowMaximum s.premium_percentage s.max_premium_percentage
  pub listed : (a : ℕ) → count a s.reserve_assets ≤ (if is_reserve a then 1 else 0)

abbrev pub AreWithinLimits : (ℕ → NavIssuanceSettings) → (ℕ → ℕ → Bool) → Type 0
AreWithinLimits settings reserves = (t : ℕ) → IsWithinLimits (settings t) (reserves t)

no_settings-IsWithinLimits : (m : ℕ → Bool) → IsWithinLimits no_settings m
no_settings-IsWithinLimits m = record {
  fees = (λ n h. ground arith, λ n h. ground arith, ground arith);
  premium = (ground arith, ground arith);
  listed = λ a. ground arith;
}

update-AreWithinLimits :
    (settings : ℕ → NavIssuanceSettings) (reserves : ℕ → ℕ → Bool) (t : ℕ) (s : NavIssuanceSettings)
    (m : ℕ → Bool)
    → IsWithinLimits s m
    → AreWithinLimits settings reserves
    → AreWithinLimits (update settings t s) (update reserves t m)
update-AreWithinLimits settings reserves t s m new all a = elim (Bool-cases (a == t)) [
  | inl here ↦ rw here new
  | inr other ↦ rw other (all a)
]

settings-AreWithinLimits :
    (settings : ℕ → NavIssuanceSettings) (reserves : ℕ → ℕ → Bool) (t : ℕ) (s : NavIssuanceSettings)
    → IsWithinLimits s (reserves t)
    → AreWithinLimits settings reserves
    → AreWithinLimits (update settings t s) reserves
settings-AreWithinLimits settings reserves t s new all a = elim (Bool-cases (a == t)) [
  | inl here ↦
      let e : a ≡ t = ground arith in
      rw here (subst (λ x. IsWithinLimits s (reserves x)) (sym e) new)
  | inr other ↦ rw other (all a)
]

abbrev IsSettled : {S : Type 0} → World S → Type 0
IsSettled w = AreWithinLimits w.nav_issuance_settings w.is_reserve_asset

module _ {S : Type 0} (this : ℕ) where
  -- The functions that write settings, where they succeed, and any change of the rest of the system.
  pub data Step : World S → World S → Type 0 where
    adds :
        (w : World S) (sender t asset : ℕ) (w' : World S)
        → add_reserve_asset this w sender t asset ≡ ok w'
        → Step w w'
    takes_off :
        (w : World S) (sender t asset : ℕ) (w' : World S)
        → remove_reserve_asset this w sender t asset ≡ ok w'
        → Step w w'
    edits_premium :
        (w : World S) (sender t p : ℕ) (w' : World S)
        → edit_premium this w sender t p ≡ ok w'
        → Step w w'
    edits_fee :
        (w : World S) (sender t fee i : ℕ) (w' : World S)
        → edit_manager_fee this w sender t fee i ≡ ok w'
        → Step w w'
    edits_recipient :
        (w : World S) (sender t r : ℕ) (w' : World S)
        → edit_fee_recipient this w sender t r ≡ ok w'
        → Step w w'
    initializes :
        (w : World S) (sender t : ℕ) (s : NavIssuanceSettings) (w' : World S)
        → initialize this w sender t s ≡ ok w'
        → Step w w'
    removes : (w : World S) (sender : ℕ) → Step w (remove_module w sender)
    elsewhere :
        (w : World S) (c : Controller) (tokens : ℕ → SetToken) (s : S)
        → Step w (record w { controller = c; tokens = tokens; outside = s })

  initialize-AreWithinLimits :
      (w w' : World S) (sender t : ℕ) (s : NavIssuanceSettings)
      → initialize this w sender t s ≡ ok w'
      → IsSettled w
      → IsSettled w'
  unfolding initialize
  initialize-AreWithinLimits w w' sender t s h all =
      let (_, _, h0) = bind-inversion (require_set_manager (w.tokens t) sender) _ h in
      let (_, _, h1) =
        bind-inversion (require_valid_and_pending_set w.controller this t (w.tokens t)) _ h0 in
      let (_, h2) =
        require-inversion (ltb 0 (length s.reserve_assets)) "Reserve assets must be greater than 0"
          _ h1 in
      let (fees_below, h3) =
        require-inversion (ltb s.max_manager_fee (10 ^ 18)) "Max manager fee must be less than 100%"
          _ h2 in
      let (premium_below, h4) =
        require-inversion (ltb s.max_premium_percentage (10 ^ 18))
          "Max premium percentage must be less than 100%" _ h3 in
      let (issue_fee, e5, h5) = bind-inversion (at s.manager_fees 0) _ h4 in
      let (issue_fits, h6) =
        require-inversion (leb issue_fee s.max_manager_fee)
          "Manager issue fee must be less than max" _ h5 in
      let (redeem_fee, e7, h7) = bind-inversion (at s.manager_fees 1) _ h6 in
      let (redeem_fits, h8) =
        require-inversion (leb redeem_fee s.max_manager_fee)
          "Manager redeem fee must be less than max" _ h7 in
      let (premium_fits, h9) =
        require-inversion (leb s.premium_percentage s.max_premium_percentage)
          "Premium must be less than max" _ h8 in
      let (_, h10) =
        require-inversion (not (s.fee_recipient == 0)) "Fee Recipient must be non-zero address." _
          h9 in
      let (_, h11) =
        require-inversion (ltb 0 s.min_set_token_supply)
          "Min SetToken supply must be greater than 0" _ h10 in
      let (marks, e12, h12) =
        bind-inversion (mark_reserves s.reserve_assets (w.is_reserve_asset t)) _ h11 in
      let (token, _, h13) = bind-inversion (initialize_module (w.tokens t) this) _ h12 in
      let new : IsWithinLimits s marks = record {
        fees = (λ n e. ground arith, λ n e. ground arith, ground arith);
        premium = (ground arith, ground arith);
        listed = λ a.
            omega (arith, mark_reserves-count s.reserve_assets (w.is_reserve_asset t) marks e12 a);
      } in
      subst IsSettled (ok_injective h13)
        (update-AreWithinLimits w.nav_issuance_settings w.is_reserve_asset t s marks new all)

  Step-AreWithinLimits :
      (w w' : World S)
      → Step w w'
      → AreWithinLimits w.nav_issuance_settings w.is_reserve_asset
      → AreWithinLimits w'.nav_issuance_settings w'.is_reserve_asset
  unfolding add_reserve_asset remove_reserve_asset edit_premium edit_manager_fee edit_fee_recipient
      remove_module
  Step-AreWithinLimits w w' (adds _ sender t asset _ h) all =
      let s = w.nav_issuance_settings t in
      let (_, _, h0) = bind-inversion (only_manager_and_valid_set this w sender t) _ h in
      let (fresh, h1) =
        require-inversion (not (w.is_reserve_asset t asset)) "Reserve asset already exists" _ h0 in
      let new : IsWithinLimits (record s { reserve_assets = s.reserve_assets ++ asset ∷ [] })
          (update (w.is_reserve_asset t) asset true) =
        record {
          fees = (all t).fees;
          premium = (all t).premium;
          listed =
              push-listed s.reserve_assets (w.is_reserve_asset t) asset (ground arith)
                (all t).listed;
        } in
      subst IsSettled (ok_injective h1)
        (update-AreWithinLimits w.nav_issuance_settings w.is_reserve_asset t _ _ new all)
  Step-AreWithinLimits w w' (takes_off _ sender t asset _ h) all =
      let s = w.nav_issuance_settings t in
      let (_, _, h0) = bind-inversion (only_manager_and_valid_set this w sender t) _ h in
      let (_, h1) =
        require-inversion (w.is_reserve_asset t asset) "Reserve asset does not exist" _ h0 in
      let (assets, e, h2) = bind-inversion (remove s.reserve_assets asset) _ h1 in
      let new : IsWithinLimits (record s { reserve_assets = assets })
          (update (w.is_reserve_asset t) asset false) =
        record {
          fees = (all t).fees;
          premium = (all t).premium;
          listed =
              remove-listed s.reserve_assets assets (w.is_reserve_asset t) asset e (all t).listed;
        } in
      subst IsSettled (ok_injective h2)
        (update-AreWithinLimits w.nav_issuance_settings w.is_reserve_asset t _ _ new all)
  Step-AreWithinLimits w w' (edits_premium _ sender t p _ h) all =
      let s = w.nav_issuance_settings t in
      let (_, _, h0) = bind-inversion (only_manager_and_valid_set this w sender t) _ h in
      let (fits, h1) =
        require-inversion (leb p s.max_premium_percentage)
          "Premium must be less than maximum allowed" _ h0 in
      let new : IsWithinLimits (record s { premium_percentage = p }) (w.is_reserve_asset t) =
        record {
          fees = (all t).fees;
          premium = (ground arith, (all t).premium.1);
          listed = (all t).listed;
        } in
      subst IsSettled (ok_injective h1)
        (settings-AreWithinLimits w.nav_issuance_settings w.is_reserve_asset t _ new all)
  Step-AreWithinLimits w w' (edits_fee _ sender t fee i _ h) all =
      let s = w.nav_issuance_settings t in
      let (_, _, h0) = bind-inversion (only_manager_and_valid_set this w sender t) _ h in
      let (fits, h1) =
        require-inversion (leb fee s.max_manager_fee)
          "Manager fee must be less than maximum allowed" _ h0 in
      let (_, _, h2) = bind-inversion (at s.manager_fees i) _ h1 in
      let (issue_fee, redeem_fee, below) = (all t).fees in
      let bounded : fee ≤ s.max_manager_fee = ground arith in
      let new : IsWithinLimits (record s { manager_fees = set s.manager_fees i fee })
          (w.is_reserve_asset t) =
        record {
          fees = (
            λ n e. set-bound s.manager_fees i 0 fee n s.max_manager_fee bounded issue_fee e,
            λ n e. set-bound s.manager_fees i 1 fee n s.max_manager_fee bounded redeem_fee e,
            below,
          );
          premium = (all t).premium;
          listed = (all t).listed;
        } in
      subst IsSettled (ok_injective h2)
        (settings-AreWithinLimits w.nav_issuance_settings w.is_reserve_asset t _ new all)
  Step-AreWithinLimits w w' (edits_recipient _ sender t r _ h) all =
      let s = w.nav_issuance_settings t in
      let (_, _, h0) = bind-inversion (only_manager_and_valid_set this w sender t) _ h in
      let (_, h1) = require-inversion (not (r == 0)) "Fee recipient must not be 0 address" _ h0 in
      let new : IsWithinLimits (record s { fee_recipient = r }) (w.is_reserve_asset t) = record {
        fees = (all t).fees;
        premium = (all t).premium;
        listed = (all t).listed;
      } in
      subst IsSettled (ok_injective h1)
        (settings-AreWithinLimits w.nav_issuance_settings w.is_reserve_asset t _ new all)
  Step-AreWithinLimits w w' (initializes _ sender t s _ h) all =
      initialize-AreWithinLimits w w' sender t s h all
  Step-AreWithinLimits w _ (removes _ sender) all =
      update-AreWithinLimits w.nav_issuance_settings w.is_reserve_asset sender no_settings _
        (no_settings-IsWithinLimits _) all
  Step-AreWithinLimits w _ (elsewhere _ c tokens s) all = all

  -- Any number of steps from a module that has just been deployed.
  pub data IsReachable : World S → Type 0 where
    deployed :
        (c : Controller) (tokens : ℕ → SetToken) (s : S)
        → IsReachable (record {
          controller = c;
          tokens = tokens;
          nav_issuance_settings = λ _. no_settings;
          is_reserve_asset = λ _ _. false;
          outside = s;
        })
    then_step : (w w' : World S) → IsReachable w → Step w w' → IsReachable w'

  -- Whatever the managers, the removals and the rest of the system do, in any order, for every token
  -- both fees of the manager and the premium are at most their maxima, the maxima are below 100%, and
  -- the array of reserve assets lists only what the mapping has, and no asset twice.
  pub reachable-AreWithinLimits :
      (w : World S) → IsReachable w → AreWithinLimits w.nav_issuance_settings w.is_reserve_asset
  reachable-AreWithinLimits _ (deployed c tokens s) = λ t. no_settings-IsWithinLimits (λ _. false)
  reachable-AreWithinLimits w' (then_step w _ before step) =
      Step-AreWithinLimits w w' step (reachable-AreWithinLimits w before)
