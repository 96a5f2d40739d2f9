-- ===== src/Examples/Issuance.antt =====
-- contracts/protocol/modules/BasicIssuanceModule.sol: a token with one component at 1.5 per token.
use set_protocol_v2_contract.Common.{
  ℕ, suc, subst, ◌*◌, ◌^◌, ◌≤◌, ◌<◌, ◌≡◌, refl, ok, err, fault, arith, ◌==◌,
}
use set_protocol_v2_contract.Common.Integer.{pos, ◌*ℤ◌, quot}
use set_protocol_v2_contract.Common.Lists.{count}
use set_protocol_v2_contract.Contracts.Storage.{update}
use set_protocol_v2_contract.Contracts.PreciseUnitMath.{
  precise_mul, precise_mul_ceil, conservative_precise_mul, div_down, xor_is_negative, has_remainder,
}
use set_protocol_v2_contract.Contracts.SetToken.{
  SetToken, no_position, mint, burn, invoke, privileged, validate_only_module,
  validate_when_locked_only_locker, get_default_position_real_unit, convert_virtual_to_real_unit,
  put_position,
}
use set_protocol_v2_contract.Contracts.ModuleBase.{transfer_from}
use set_protocol_v2_contract.Contracts.Invoke.{strict_invoke_transfer, invoke_transfer, invoke_call}
use set_protocol_v2_contract.Contracts.Position.{has_external_position}
use set_protocol_v2_contract.Contracts.BasicIssuance.{
  World, PreIssueHook, issue, redeem, call_pre_issue_hooks, get_required_component_units_for_issue,
  required_quantity, required_quantities, take_components, pay_component, pay_components,
}
use set_protocol_v2_contract.Contracts.BasicIssuance.Backing.{
  HasDefaultUnit-unique, IsBacked, starts, issues, redeems, reachable-IsBacked,
}
use set_protocol_v2_contract.Contracts.BasicIssuance.Loops.{HasDefaultUnit}
use set_protocol_v2_contract.Contracts.BasicIssuance.RoundTrip.{issue-redeem}
use set_protocol_v2_contract.Contracts.BasicIssuance.Redemption.{
  CanPay, HasReadableUnits, redeem-succeeds,
}
use set_protocol_v2_contract.Examples.Instances.{safe_math, signed_safe_math, safe_cast, erc20}
use set_protocol_v2_contract.Examples.Components.{
  Balances, move, component_contracts, answer_call-pays,
}
use set_protocol_v2_contract.Examples.Registry.{started}
use set_protocol_v2_contract.Examples.Tokens.{ready_token}

-- The holder 9 has 4 of the 10 shares, and 20 of the component 5, of which the token 100 has 15.
abbrev pub shares : SetToken
shares =
    record (put_position ready_token 5 (record no_position { virtual_unit = pos (15 * 10 ^ 17) })) {
      ledger = record { balances = update (λ _. 0) 9 4; total_supply = 10 };
    }

abbrev balances : Balances
balances = update (λ _ _. 0) 5 (update (update (λ _. 0) 100 15) 9 20)

abbrev start : World Balances
start = record {
  controller = record started { is_set = λ a. a == 100 };
  tokens = λ _. shares;
  manager_issuance_hook = λ _. 0;
  outside = balances;
}

abbrev no_hook : PreIssueHook Balances
no_hook w a set_token quantity caller recipient = err fault

-- 3 more shares for 5 of the component, and 4 of it for 3 shares.
abbrev more_shares : SetToken
more_shares = record shares {
  ledger = record { balances = update (update (λ _. 0) 9 4) 9 7; total_supply = 13 };
}

abbrev issued : World Balances
issued = record start {
  tokens = update start.tokens 100 more_shares;
  outside = move balances 5 9 100 5;
}

issues_three :
    issue 20 ⦃sm = safe_math⦄ ⦃ssm = signed_safe_math⦄ ⦃sc = safe_cast⦄ ⦃erc20 = erc20⦄
      ⦃tc = component_contracts⦄ no_hook start 9 100 3 9
    ≡ ok issued
unfolding issue call_pre_issue_hooks get_required_component_units_for_issue required_quantities
    required_quantity take_components transfer_from mint privileged validate_only_module
    validate_when_locked_only_locker has_external_position get_default_position_real_unit
    convert_virtual_to_real_unit precise_mul_ceil conservative_precise_mul div_down xor_is_negative
    has_remainder ◌*ℤ◌ quot
issues_three = refl

abbrev redeemed : World Balances
redeemed = record issued {
  tokens = update issued.tokens 100 (record shares {
    ledger = record { balances = update more_shares.ledger.balances 9 4; total_supply = 10 };
  });
  outside = move issued.outside 5 100 8 4;
}

redeems_three :
    redeem 20 ⦃sm = safe_math⦄ ⦃ssm = signed_safe_math⦄ ⦃sc = safe_cast⦄ ⦃erc20 = erc20⦄
      ⦃tc = component_contracts⦄ issued 9 100 3 8
    ≡ ok redeemed
unfolding redeem pay_components pay_component strict_invoke_transfer invoke_transfer invoke_call
    invoke burn privileged validate_only_module validate_when_locked_only_locker
    has_external_position get_default_position_real_unit convert_virtual_to_real_unit precise_mul
    conservative_precise_mul div_down xor_is_negative has_remainder ◌*ℤ◌ quot
redeems_three = refl

issue-redeem_example :
    (hooked : World Balances × ℕ) × (call_pre_issue_hooks no_hook start 100 3 9 9 ≡ ok hooked)
    × ((redeemed.tokens 100).ledger.total_supply ≡ (hooked.0.tokens 100).ledger.total_supply)
    × ((c : ℕ)
        → 0 < count c (hooked.0.tokens 100).components
        → (hooked.0.outside c 100 ≤ redeemed.outside c 100)
          × (redeemed.outside c 100 ≤ suc (hooked.0.outside c 100)))
issue-redeem_example =
    issue-redeem 20 ⦃sm = safe_math⦄ ⦃ssm = signed_safe_math⦄ ⦃sc = safe_cast⦄ ⦃erc20 = erc20⦄
      ⦃tc = component_contracts⦄ no_hook start 9 9 100 3 9 8 issued redeemed (λ a. ground arith)
      issues_three redeems_three

only_unit : (c : ℕ) → 0 < count c shares.components → c ≡ 5
only_unit c listed = ground arith

five-HasDefaultUnit : HasDefaultUnit ⦃ssm = signed_safe_math⦄ shares 5 (15 * 10 ^ 17)
unfolding get_default_position_real_unit convert_virtual_to_real_unit has_external_position
    conservative_precise_mul div_down xor_is_negative has_remainder ◌*ℤ◌ quot
five-HasDefaultUnit = (refl, refl)

start-IsBacked : IsBacked ⦃ssm = signed_safe_math⦄ ⦃tc = component_contracts⦄ start 100
start-IsBacked = record {
  distinct = λ a. ground arith;
  covers = λ c unit listed has.
      let same = only_unit c listed in
      let one : unit ≡ 15 * 10 ^ 17 =
        HasDefaultUnit-unique ⦃ssm = signed_safe_math⦄ shares 5 unit (15 * 10 ^ 17)
          (subst (λ x. HasDefaultUnit ⦃ssm = signed_safe_math⦄ shares x unit) same has)
          five-HasDefaultUnit in
      rw (one, same) (ground arith);
}

reachable-IsBacked_example :
    IsBacked ⦃ssm = signed_safe_math⦄ ⦃tc = component_contracts⦄ redeemed 100
reachable-IsBacked_example =
    reachable-IsBacked 20 ⦃sm = safe_math⦄ ⦃ssm = signed_safe_math⦄ ⦃sc = safe_cast⦄ ⦃erc20 = erc20⦄
      ⦃tc = component_contracts⦄ no_hook start 100 redeemed
      (λ w a quantity caller recipient w' h b. absurd (ground arith)) start-IsBacked
      (redeems issued 9 3 8 redeemed (issues start 9 3 9 issued starts issues_three) redeems_three)

pays_others : CanPay Balances ⦃tc = component_contracts⦄ 100 8
pays_others s token quantity enough =
    (move s token 100 8 quantity, "", answer_call-pays s 100 token 8 quantity enough, ground arith)

readable : HasReadableUnits ⦃ssm = signed_safe_math⦄ shares
readable c listed = rw (only_unit c listed) (15 * 10 ^ 17, five-HasDefaultUnit, ground arith)

redeem-succeeds_example :
    (w' : World Balances) × (redeem 20 ⦃sm = safe_math⦄ ⦃ssm = signed_safe_math⦄ ⦃sc = safe_cast⦄
        ⦃erc20 = erc20⦄ ⦃tc = component_contracts⦄ start 9 100 3 8
      ≡ ok w')
redeem-succeeds_example =
    redeem-succeeds 20 ⦃sm = safe_math⦄ ⦃ssm = signed_safe_math⦄ ⦃sc = safe_cast⦄ ⦃erc20 = erc20⦄
      ⦃tc = component_contracts⦄ start 9 100 3 8
      (record { balances = update shares.ledger.balances 9 1; total_supply = 7 }) refl refl refl
      refl (ground arith) refl readable start-IsBacked pays_others
