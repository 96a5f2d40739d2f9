-- ===== src/Examples/NavIssuance.antt =====
-- contracts/protocol/modules/NAVIssuanceModule.sol: an issue of shares worth 1.5 each, and what the
-- utilities expect of it.
use set_protocol_v2_contract.Common.{
  ℕ, ◌*◌, ◌^◌, ◌≡◌, refl, true, false, [], ◌∷◌, ok, err, fault, ◌==◌,
}
use set_protocol_v2_contract.Common.Integer.{pos, ◌+ℤ◌, ◌-ℤ◌, ◌*ℤ◌, quot}
use set_protocol_v2_contract.Contracts.Storage.{update}
use set_protocol_v2_contract.Contracts.PreciseUnitMath.{
  precise_mul, precise_mul_ceil, precise_div, conservative_precise_mul, div_down, xor_is_negative,
  has_remainder,
}
use set_protocol_v2_contract.Contracts.Controller.{get_module_fee}
use set_protocol_v2_contract.Contracts.SetToken.{
  SetToken, get_default_position_real_unit, convert_virtual_to_real_unit, initialize_module, create,
}
use set_protocol_v2_contract.Contracts.NavIssuance.{
  World, NavIssuanceSettings, no_settings, initialize, edit_premium, mark_reserves,
  only_manager_and_valid_set,
}
use set_protocol_v2_contract.Contracts.NavIssuance.Limits.{
  AreWithinLimits, deployed, then_step, initializes, edits_premium, reachable-AreWithinLimits,
}
use set_protocol_v2_contract.Examples.Tokens.{new_token, ready_token}
use set_protocol_v2_contract.Contracts.NavIssuance.Quantities.{
  ActionInfo, Percentages, Fees, base_units, fees_of, get_fees,
  get_protocol_and_manager_fee_percentages, get_set_token_mint_quantity,
  get_redeem_reserve_quantity, scale_multiplier, get_issue_position_unit,
}
use set_protocol_v2_contract.Contracts.NavIssuance.Actions.{Surroundings, create_issuance_info}
use set_protocol_v2_contract.Contracts.NavIssuance.Solvency.{
  IsCovered, create_issuance_info-IsCovered,
}
use set_protocol_v2_contract.Utils.MathUtils
use set_protocol_v2_contract.Utils.NavIssuanceModuleUtils.{
  SetTokenHandle, SetValuerHandle, get_expected_set_token_issue_quantity,
  get_expected_reserve_redeem_quantity, get_expected_post_fee_quantity,
}
use set_protocol_v2_contract.Agreement.NavIssuance.{
  mint_quantity-predicted, redeem_quantity-predicted,
}
use set_protocol_v2_contract.Examples.Instances.{
  big_numbers, safe_math, signed_safe_math, safe_cast,
}
use set_protocol_v2_contract.Examples.Registry.{started}
use set_protocol_v2_contract.Examples.Issuance.{shares}

-- 10 shares, and a manager's fee of 1% on an issue.
abbrev many_shares : SetToken
many_shares = record shares {
  ledger = record { balances = update (λ _. 0) 9 (10 * 10 ^ 18); total_supply = 10 * 10 ^ 18 };
}

abbrev start : World ℕ
start = record {
  controller = record started { is_set = λ a. a == 100 };
  tokens = λ _. many_shares;
  nav_issuance_settings = λ _. record no_settings { manager_fees = 10 ^ 16 ∷ 0 ∷ [] };
  is_reserve_asset = λ _ a. a == 5;
  outside = 18;
}

abbrev around : Surroundings ℕ
around = record {
  valuation = λ w set_token quote. ok (15 * 10 ^ 17);
  decimals = λ s asset. ok s;
  pre_issue_hook = λ w hook set_token asset quantity caller recipient. err fault;
  pre_redeem_hook = λ w hook set_token quantity caller recipient. err fault;
}

abbrev issue_info : ActionInfo
issue_info = record {
  pre_fee_reserve_quantity = 3 * 10 ^ 18;
  protocol_fees = 0;
  manager_fee = 3 * 10 ^ 16;
  net_flow_quantity = 297 * 10 ^ 16;
  set_token_quantity = 198 * 10 ^ 16;
  previous_set_token_supply = 10 * 10 ^ 18;
  new_set_token_supply = 1198 * 10 ^ 16;
  new_position_multiplier = pos 834724540901502504;
  new_reserve_position_unit = 15 * 10 ^ 17;
}

computes_info :
    create_issuance_info around 30 ⦃sm = safe_math⦄ ⦃ssm = signed_safe_math⦄ ⦃sc = safe_cast⦄ start
      100 5
      (3 * 10 ^ 18)
    ≡ ok issue_info
unfolding create_issuance_info get_fees get_protocol_and_manager_fee_percentages fees_of
    get_module_fee get_set_token_mint_quantity scale_multiplier get_issue_position_unit precise_mul
    precise_div get_default_position_real_unit convert_virtual_to_real_unit conservative_precise_mul
    div_down xor_is_negative has_remainder ◌*ℤ◌ quot
computes_info = refl

create_issuance_info-IsCovered_example :
    IsCovered around 30 ⦃sm = safe_math⦄ ⦃ssm = signed_safe_math⦄ ⦃sc = safe_cast⦄ start 100 5
      (10 ^ 18)
      issue_info
create_issuance_info-IsCovered_example =
    create_issuance_info-IsCovered around 30 ⦃sm = safe_math⦄ ⦃ssm = signed_safe_math⦄
      ⦃sc = safe_cast⦄ start 100 5 (3 * 10 ^ 18) (10 ^ 18) issue_info refl computes_info

-- A fee of the manager of 1%.
abbrev one_percent : Percentages
one_percent = record { protocol = 0; manager = 10 ^ 16 }

abbrev set_token_handle : SetTokenHandle
set_token_handle = record { address = "0x64"; total_supply = ok (pos (10 * 10 ^ 18)) }

abbrev set_valuer_handle : SetValuerHandle
set_valuer_handle = record { calculate_set_token_valuation = λ a b. ok (pos (15 * 10 ^ 17)) }

abbrev issue_fees : Fees
issue_fees = record {
  protocol_fees = 0;
  manager_fee = 3 * 10 ^ 16;
  net_reserve_flow = 297 * 10 ^ 16;
}

takes_fees : fees_of ⦃sm = safe_math⦄ one_percent (3 * 10 ^ 18) ≡ ok issue_fees
unfolding fees_of precise_mul
takes_fees = refl

mints :
    get_set_token_mint_quantity ⦃sm = safe_math⦄
      (ok (15 * 10 ^ 17))
      (ok 18)
      0
      (297 * 10 ^ 16)
      (10 * 10 ^ 18)
    ≡ ok (198 * 10 ^ 16)
unfolding get_set_token_mint_quantity precise_mul precise_div
mints = refl

mint_quantity-predicted_example :
    get_expected_set_token_issue_quantity ⦃bn = big_numbers⦄ set_token_handle set_valuer_handle
      "0x05"
      (pos (base_units 18))
      (pos (3 * 10 ^ 18))
      (pos (10 ^ 16))
      (pos 0)
      (pos 0)
    ≡ ok (pos (198 * 10 ^ 16))
mint_quantity-predicted_example =
    mint_quantity-predicted ⦃bn = big_numbers⦄ ⦃sm = safe_math⦄ set_token_handle set_valuer_handle
      "0x05" (15 * 10 ^ 17) 18 (10 * 10 ^ 18) 0 (3 * 10 ^ 18) one_percent issue_fees (198 * 10 ^ 16)
      refl refl takes_fees mints

-- 2 shares are worth 3 of the reserve asset.
redeems_two :
    get_redeem_reserve_quantity ⦃sm = safe_math⦄ (ok (15 * 10 ^ 17)) (ok 18) 0 (2 * 10 ^ 18)
    ≡ ok (3 * 10 ^ 18)
unfolding get_redeem_reserve_quantity precise_mul precise_mul_ceil
redeems_two = refl

redeem_quantity-predicted_example :
    get_expected_reserve_redeem_quantity ⦃bn = big_numbers⦄
      (pos (2 * 10 ^ 18))
      (pos (15 * 10 ^ 17))
      (pos (10 ^ 18))
      (pos (10 ^ 16))
      (pos 0)
      (pos 0)
    ≡ ok (pos (297 * 10 ^ 16))
redeem_quantity-predicted_example =
    redeem_quantity-predicted ⦃bn = big_numbers⦄ ⦃sm = safe_math⦄ (15 * 10 ^ 17) 0 (2 * 10 ^ 18)
      one_percent (3 * 10 ^ 18) issue_fees redeems_two takes_fees

-- With 6 decimals the two differ: shares worth 1.5 millionths, at a premium of 1%.
pays_none :
    get_redeem_reserve_quantity ⦃sm = safe_math⦄ (ok (10 ^ 18)) (ok 6) (10 ^ 16) (15 * 10 ^ 11)
    ≡ ok 0
unfolding get_redeem_reserve_quantity precise_mul precise_mul_ceil
pays_none = refl

expects_one :
    get_expected_reserve_redeem_quantity ⦃bn = big_numbers⦄
      (pos (15 * 10 ^ 11))
      (pos (10 ^ 18))
      (pos (10 ^ 6))
      (pos 0)
      (pos 0)
      (pos (10 ^ 16))
    ≡ ok (pos 1)
unfolding get_expected_reserve_redeem_quantity get_expected_post_fee_quantity MathUtils.precise_mul
    MathUtils.precise_mul_ceil MathUtils.sub_div_add ◌-ℤ◌ ◌+ℤ◌ ◌*ℤ◌ quot
expects_one = refl

-- A new token 100 whose manager 1 sets up the module 20 and then raises the premium.
abbrev deployed_world : World ℕ
deployed_world = record {
  controller = record started { is_set = λ a. a == 100 };
  tokens = λ _. new_token;
  nav_issuance_settings = λ _. no_settings;
  is_reserve_asset = λ _ _. false;
  outside = 18;
}

abbrev settings : NavIssuanceSettings
settings = record no_settings {
  reserve_assets = 5 ∷ [];
  fee_recipient = 7;
  manager_fees = 10 ^ 16 ∷ 0 ∷ [];
  max_manager_fee = 5 * 10 ^ 16;
  premium_percentage = 10 ^ 15;
  max_premium_percentage = 10 ^ 16;
  min_set_token_supply = 1;
}

abbrev configured : World ℕ
configured = record deployed_world {
  tokens = update deployed_world.tokens 100 ready_token;
  nav_issuance_settings = update deployed_world.nav_issuance_settings 100 settings;
  is_reserve_asset = update deployed_world.is_reserve_asset 100 (update (λ _. false) 5 true);
}

abbrev raised : World ℕ
raised = record configured {
  nav_issuance_settings =
      update configured.nav_issuance_settings 100
        (record settings { premium_percentage = 10 ^ 16 });
}

sets_up : initialize 20 deployed_world 1 100 settings ≡ ok configured
unfolding initialize mark_reserves initialize_module create
sets_up = refl

raises : edit_premium 20 configured 1 100 (10 ^ 16) ≡ ok raised
unfolding edit_premium only_manager_and_valid_set
raises = refl

reachable-AreWithinLimits_example :
    AreWithinLimits raised.nav_issuance_settings raised.is_reserve_asset
reachable-AreWithinLimits_example = reachable-AreWithinLimits 20 raised (
    then_step configured raised
      (then_step deployed_world configured
        (deployed (record started { is_set = λ a. a == 100 }) (λ _. new_token) 18)
        (initializes deployed_world 1 100 settings configured sets_up))
      (edits_premium configured 1 100 (10 ^ 16) raised raises))
