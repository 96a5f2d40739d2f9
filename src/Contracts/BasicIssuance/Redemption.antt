-- ===== src/Contracts/BasicIssuance/Redemption.antt =====
-- contracts/protocol/modules/BasicIssuanceModule.sol: when a holder can redeem.
use native.Mathlib.Nat.{mul_comm, mul-le-mul_left}
use set_protocol_v2_contract.Common.{
  ℕ, Bool, String, ◌-◌, ◌*◌, ◌/◌, ◌^◌, ◌≤◌, ◌<◌, ◌≡◌, refl, true, false, List, [], ◌∷◌, ok, arith,
  inl, inr, Bool-cases, ltb,
}
use set_protocol_v2_contract.Common.Integer.{pos}
use set_protocol_v2_contract.Common.Lists.{count}
use set_protocol_v2_contract.External.OpenZeppelin.{
  SafeMath, SignedSafeMath, SafeCast, Erc20, Ledger, uint_limit,
}
use set_protocol_v2_contract.External.TokenContracts.{Erc20Contracts}
use set_protocol_v2_contract.Contracts.PreciseUnitMath.Unsigned.{precise_mul_lem}
use set_protocol_v2_contract.Contracts.SetToken.{
  SetToken, initialized, privileged, validate_only_module, validate_when_locked_only_locker, burn,
  invoke,
}
use set_protocol_v2_contract.Contracts.Storage.{update}
use set_protocol_v2_contract.Contracts.SetToken.Validity.{IsDistinctArray}
use set_protocol_v2_contract.Contracts.Invoke.{strict_invoke_transfer, invoke_transfer, invoke_call}
use set_protocol_v2_contract.Contracts.BasicIssuance.{World, redeem, pay_component, pay_components}
use set_protocol_v2_contract.Contracts.BasicIssuance.Loops.{HasDefaultUnit}
use set_protocol_v2_contract.Contracts.BasicIssuance.Outcomes.{ledger-HasDefaultUnit}
use set_protocol_v2_contract.Contracts.BasicIssuance.Transfers.{strict_invoke_transfer-keeps}
use set_protocol_v2_contract.Contracts.BasicIssuance.Backing.{IsBacked}

-- The transfer of an ERC20 token, as its standard has it: what the sender holds it can send to
-- another account, and it holds that much less then.
abbrev pub CanPay : (S : Type 0) ⦃tc : Erc20Contracts S⦄ → ℕ → ℕ → Type 0
CanPay S ⦃tc⦄ payer payee =
    (s : S) (token quantity : ℕ)
    → quantity ≤ tc.balance_of s token payer
    → (s' : S) × (answer : String) × (tc.call_with_value s payer token 0
          (tc.encode_transfer payee quantity)
        ≡ ok (s', answer))
      × (tc.balance_of s' token payer ≡ tc.balance_of s token payer - quantity)

module _ {S : Type 0} (is_module : ℕ → Bool) ⦃sm : SafeMath⦄ ⦃tc : Erc20Contracts S⦄ where
  strict_invoke_transfer-succeeds :
      (s : S) (sender set_token : ℕ) (t : SetToken) (token payee quantity : ℕ)
      → CanPay S set_token payee
      → privileged is_module t sender ≡ ok tt
      → quantity ≤ tc.balance_of s token set_token
      → (s' : S) × (strict_invoke_transfer is_module s sender set_token t token payee quantity
          ≡ ok s')
  unfolding strict_invoke_transfer invoke_transfer invoke_call invoke
  strict_invoke_transfer-succeeds s sender set_token t token payee quantity can allowed enough =
      elim (Bool-cases (ltb 0 quantity)) [
        | inr none ↦ (s, ground arith)
        | inl some ↦
            let (s', answer, e, left) = can s token quantity enough in
            (s', ground (arith, sm.sub_lem (tc.balance_of s token set_token) quantity))
      ]

  module _ ⦃ssm : SignedSafeMath⦄ ⦃sc : SafeCast⦄ where
    pay_component-succeeds :
        (s : S) (sender set_token : ℕ) (t : SetToken) (quantity recipient component unit : ℕ)
        → CanPay S set_token recipient
        → privileged is_module t sender ≡ ok tt
        → HasDefaultUnit t component unit
        → quantity * unit < uint_limit
        → quantity * unit / 10 ^ 18 ≤ tc.balance_of s component set_token
        → (s' : S) × (pay_component is_module s sender set_token t quantity recipient component
            ≡ ok s')
          × (strict_invoke_transfer is_module s sender set_token t component recipient
                (quantity * unit / 10 ^ 18)
              ≡ ok s')
    unfolding pay_component
    pay_component-succeeds s sender set_token t quantity recipient component unit can allowed
          (reads, single) fits enough =
        let (s', e) =
          strict_invoke_transfer-succeeds s sender set_token t component recipient
            (quantity * unit / 10 ^ 18) can allowed enough in
        (s', ground (arith, sc.to_uint_lem (pos unit), precise_mul_lem quantity unit fits), e)

    pub pay_components-succeeds :
        (s : S) (sender set_token : ℕ) (t : SetToken) (quantity recipient : ℕ) (cs : List ℕ)
        → CanPay S set_token recipient
        → privileged is_module t sender ≡ ok tt
        → IsDistinctArray cs
        → ((c : ℕ)
            → 0 < count c cs
            → (unit : ℕ) × HasDefaultUnit t c unit
              × (quantity * unit < uint_limit)
              × (quantity * unit / 10 ^ 18 ≤ tc.balance_of s c set_token))
        → (s' : S) × (pay_components is_module s sender set_token t quantity recipient cs ≡ ok s')
    unfolding pay_components
    pay_components-succeeds s sender set_token t quantity recipient [] can allowed d each =
        (s, refl)
    pay_components-succeeds s sender set_token t quantity recipient (x ∷ cs) can allowed d each =
        let (u, has, fits, enough) = each x (ground arith) in
        let (s1, e, paid) =
          pay_component-succeeds s sender set_token t quantity recipient x u can allowed has fits
            enough in
        let (s', e') =
          pay_components-succeeds s1 sender set_token t quantity recipient cs can allowed
            (λ a. ground (arith, d a))
            (λ c listed.
              let (v, has', fits', enough') = each c (ground arith) in
              (
                v,
                has',
                fits',
                rw
                    (strict_invoke_transfer-keeps is_module s sender set_token t x recipient
                      (quantity * u / 10 ^ 18) s1 c set_token paid (λ same. ground (arith, d c)))
                    enough',
              )) in
        (s', rw e e')

-- What is paid of a unit is covered where the unit times the supply is.
paid_is_held :
    (unit supply balance quantity : ℕ)
    → quantity ≤ supply
    → unit * supply ≤ balance * 10 ^ 18
    → quantity * unit / 10 ^ 18 ≤ balance
paid_is_held unit supply balance quantity part covered =
    let less : unit * quantity ≤ unit * supply = mul-le-mul_left unit part in
    omega (arith, less, covered, mul_comm quantity unit)

-- The units of the components read, no external position holds one, and their products with the
-- supply fit in a uint256.
abbrev pub HasReadableUnits : ⦃ssm : SignedSafeMath⦄ → SetToken → Type 0
HasReadableUnits t =
    (c : ℕ)
    → 0 < count c t.components
    → (unit : ℕ) × HasDefaultUnit t c unit × (unit * t.ledger.total_supply < uint_limit)

module _ {S : Type 0} (this : ℕ) ⦃sm : SafeMath⦄ ⦃ssm : SignedSafeMath⦄ ⦃sc : SafeCast⦄
    ⦃erc20 : Erc20⦄ ⦃tc : Erc20Contracts S⦄ where
  -- On a backed token of the controller that no module has locked, with the issuance module
  -- initialized and enabled, a redeem of any quantity above zero that the sender's balance lets the
  -- token burn succeeds, for any recipient that the component contracts let the token pay, provided
  -- that no component has an external position, and that the real unit of each component can be
  -- read, is not negative, and times the supply fits in a uint256.
  pub redeem-succeeds :
      (w : World S) (sender set_token quantity recipient : ℕ) (l : Ledger)
      → w.controller.is_set set_token ≡ true
      → w.controller.is_module this ≡ true
      → (w.tokens set_token).module_states this ≡ initialized
      → (w.tokens set_token).is_locked ≡ false
      → 0 < quantity
      → erc20.burn (w.tokens set_token).ledger sender quantity ≡ ok l
      → HasReadableUnits (w.tokens set_token)
      → IsBacked w set_token
      → CanPay S set_token recipient
      → (w' : World S) × (redeem this w sender set_token quantity recipient ≡ ok w')
  unfolding redeem burn privileged validate_only_module validate_when_locked_only_locker
  redeem-succeeds w sender set_token quantity recipient l is_set enabled state unlocked some burns
        readable backed can =
      let t = w.tokens set_token in
      let after = record t { ledger = l } in
      let allowed : privileged w.controller.is_module after this ≡ ok tt = ground arith in
      let part : quantity ≤ t.ledger.total_supply =
        omega (arith, erc20.burn_supply t.ledger sender quantity burns) in
      let (s, e) =
        pay_components-succeeds w.controller.is_module w.outside this set_token after quantity
          recipient t.components can allowed backed.distinct
          (λ c listed.
            let (u, has, fits) = readable c listed in
            (
              u,
              ledger-HasDefaultUnit t l c u has,
              omega (arith, fits, mul-le-mul_left u part, mul_comm quantity u),
              paid_is_held u t.ledger.total_supply (tc.balance_of w.outside c set_token) quantity
                  part (backed.covers c u listed has),
            )) in
      (record w { outside = s; tokens = update w.tokens set_token after }, ground arith)
