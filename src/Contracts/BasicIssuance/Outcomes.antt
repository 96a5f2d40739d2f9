-- ===== src/Contracts/BasicIssuance/Outcomes.antt =====
-- contracts/protocol/modules/BasicIssuanceModule.sol: what a successful `issue` or `redeem` has done.
use set_protocol_v2_contract.Common.{
  ℕ, ◌+◌, ◌<◌, ◌≡◌, List, ok, arith, inl, inr, Result-cases, bind-inversion, subst, ok_injective,
  require-inversion, ltb,
}
use set_protocol_v2_contract.Common.Lists.{count}
use set_protocol_v2_contract.External.OpenZeppelin.{
  SafeMath, SignedSafeMath, SafeCast, Erc20, Ledger,
}
use set_protocol_v2_contract.External.TokenContracts.{Erc20Contracts}
use set_protocol_v2_contract.Contracts.PreciseUnitMath.{precise_mul, precise_mul_ceil}
use set_protocol_v2_contract.Contracts.Storage.{update}
use set_protocol_v2_contract.Contracts.SetToken.{
  SetToken, get_default_position_real_unit, convert_virtual_to_real_unit, mint, burn,
}
use set_protocol_v2_contract.Contracts.SetToken.Inversion.{mint_inversion, burn_inversion}
use set_protocol_v2_contract.Contracts.SetToken.Validity.{IsDistinctArray}
use set_protocol_v2_contract.Contracts.ModuleBase.{is_set_valid_and_initialized}
use set_protocol_v2_contract.Contracts.Position.{has_external_position}
use set_protocol_v2_contract.Contracts.BasicIssuance.{
  World, PreIssueHook, issue, redeem, call_pre_issue_hooks, get_required_component_units_for_issue,
  required_quantities, take_components, pay_components,
}
use set_protocol_v2_contract.Contracts.BasicIssuance.Loops.{
  HasDefaultUnit, take_components-Takes, pay_components-Pays,
}

-- A unit does not depend on the supply.
pub ledger-HasDefaultUnit :
    ⦃ssm : SignedSafeMath⦄ (t : SetToken) (l : Ledger) (c unit : ℕ)
    → HasDefaultUnit t c unit
    → HasDefaultUnit (record t { ledger = l }) c unit
unfolding get_default_position_real_unit convert_virtual_to_real_unit has_external_position
ledger-HasDefaultUnit t l c unit h = h

pub HasDefaultUnit-ledger :
    ⦃ssm : SignedSafeMath⦄ (t : SetToken) (l : Ledger) (c unit : ℕ)
    → HasDefaultUnit (record t { ledger = l }) c unit
    → HasDefaultUnit t c unit
unfolding get_default_position_real_unit convert_virtual_to_real_unit has_external_position
HasDefaultUnit-ledger t l c unit h = h

-- Only the ledger of the token changed.
abbrev pub HasLedger : {S : Type 0} → World S → World S → ℕ → Ledger → Type 0
HasLedger before after set_token l =
    after.tokens set_token ≡ record (before.tokens set_token) { ledger = l }

module _ {S : Type 0} ⦃sm : SafeMath⦄ ⦃ssm : SignedSafeMath⦄ ⦃tc : Erc20Contracts S⦄ where
  pub record Issues (before after : World S) (set_token quantity : ℕ) : Type 0 where
    pub supply :
        (l : Ledger) × HasLedger before after set_token l
        × (l.total_supply ≡ (before.tokens set_token).ledger.total_supply + quantity)
    pub takes :
        IsDistinctArray (before.tokens set_token).components
        → (c : ℕ) → 0 < count c (before.tokens set_token).components
        → (unit q : ℕ) × HasDefaultUnit (before.tokens set_token) c unit
          × (precise_mul_ceil unit quantity ≡ ok q)
          × (tc.balance_of after.outside c set_token ≡ tc.balance_of before.outside c set_token + q)

  pub record Redeems (before after : World S) (set_token quantity : ℕ) : Type 0 where
    pub supply :
        (l : Ledger) × HasLedger before after set_token l
        × (l.total_supply + quantity ≡ (before.tokens set_token).ledger.total_supply)
    pub pays :
        IsDistinctArray (before.tokens set_token).components
        → (c : ℕ) → 0 < count c (before.tokens set_token).components
        → (unit q : ℕ) × HasDefaultUnit (before.tokens set_token) c unit
          × (precise_mul quantity unit ≡ ok q)
          × (tc.balance_of after.outside c set_token + q ≡ tc.balance_of before.outside c set_token)

module _ {S : Type 0} (this : ℕ) ⦃sm : SafeMath⦄ ⦃ssm : SignedSafeMath⦄ ⦃sc : SafeCast⦄
    ⦃erc20 : Erc20⦄ ⦃tc : Erc20Contracts S⦄ where
  required_units_inversion :
      (w : World S) (set_token quantity : ℕ) (required : List ℕ × List ℕ)
      → get_required_component_units_for_issue this w set_token quantity ≡ ok required
      → (required.0 ≡ (w.tokens set_token).components)
        × (required_quantities (w.tokens set_token) quantity (w.tokens set_token).components
            ≡ ok required.1)
  unfolding get_required_component_units_for_issue
  required_units_inversion w set_token quantity required h =
      elim (Result-cases
        (required_quantities (w.tokens set_token) quantity (w.tokens set_token).components)) [
          | inr (x, e) ↦ absurd (ground arith)
          | inl (qs, e) ↦ (ground arith, ground arith)
        ]

  -- What follows the hook.
  issued :
      (w : World S) (sender set_token quantity recipient : ℕ) (required : List ℕ × List ℕ) (s : S)
      (t : SetToken)
      → get_required_component_units_for_issue this w set_token quantity ≡ ok required
      → take_components w.outside this sender set_token required.0 required.1 ≡ ok s
      → mint w.controller.is_module (w.tokens set_token) this recipient quantity ≡ ok t
      → Issues w (record w { outside = s; tokens = update w.tokens set_token t }) set_token quantity
  issued w sender set_token quantity recipient required s t e4 e5 e6 =
      let (l, minted, same) =
        mint_inversion w.controller.is_module (w.tokens set_token) this recipient quantity t e6 in
      let (listed, each) = required_units_inversion w set_token quantity required e4 in
      record {
        supply = (
          l,
          ground (arith, same),
          erc20.mint_supply (w.tokens set_token).ledger recipient quantity minted,
        );
        takes = λ d c is_in.
            take_components-Takes (w.tokens set_token) quantity w.outside this sender set_token
              (w.tokens set_token).components required.1 s c each
              (subst (λ cs. take_components w.outside this sender set_token cs required.1 ≡ ok s)
                listed e5)
              d is_in;
      }

  -- After the hook has returned a world, a successful `issue` mints the quantity, and takes in of
  -- every component its unit times the quantity, rounded up.
  pub issue-Issues :
      (hook : PreIssueHook S) (w : World S) (sender set_token quantity recipient : ℕ) (w' : World S)
      → issue this hook w sender set_token quantity recipient ≡ ok w'
      → (hooked : World S × ℕ) × (call_pre_issue_hooks hook w set_token quantity sender recipient
          ≡ ok hooked)
        × Issues hooked.0 w' set_token quantity
  unfolding issue
  issue-Issues hook w sender set_token quantity recipient w' h =
      let (valid, h1) =
        require-inversion
          (is_set_valid_and_initialized w.controller this set_token (w.tokens set_token))
          "Must be a valid and initialized SetToken" _ h in
      let (positive, h2) = require-inversion (ltb 0 quantity) "Issue quantity must be > 0" _ h1 in
      let (hooked, e3, h3) =
        bind-inversion (call_pre_issue_hooks hook w set_token quantity sender recipient) _ h2 in
      let (required, e4, h4) =
        bind-inversion (get_required_component_units_for_issue this hooked.0 set_token quantity) _
          h3 in
      let (s, e5, h5) =
        bind-inversion
          (take_components hooked.0.outside this sender set_token required.0 required.1) _ h4 in
      let (t, e6, h6) =
        bind-inversion
          (mint hooked.0.controller.is_module (hooked.0.tokens set_token) this recipient quantity) _
          h5 in
      (
        hooked,
        e3,
        subst (λ v. Issues hooked.0 v set_token quantity) (ok_injective h6)
            (issued hooked.0 sender set_token quantity recipient required s t e4 e5 e6),
      )

  redeemed :
      (w : World S) (sender set_token quantity recipient : ℕ) (s : S) (t : SetToken)
      → burn w.controller.is_module (w.tokens set_token) this sender quantity ≡ ok t
      → pay_components w.controller.is_module w.outside this set_token t quantity recipient
          t.components
        ≡ ok s
      → Redeems w
          (record w { outside = s; tokens = update w.tokens set_token t })
          set_token
          quantity
  redeemed w sender set_token quantity recipient s t e paid =
      let (l, burnt, same) =
        burn_inversion w.controller.is_module (w.tokens set_token) this sender quantity t e in
      record {
        supply = (
          l,
          ground (arith, same),
          erc20.burn_supply (w.tokens set_token).ledger sender quantity burnt,
        );
        pays = λ d c is_in.
            let after = record (w.tokens set_token) { ledger = l } in
            let (unit, q, has, mul, balance) =
              pay_components-Pays w.controller.is_module w.outside this set_token after quantity
                recipient after.components s c
                (subst
                  (λ x.
                    pay_components w.controller.is_module w.outside this set_token x quantity
                      recipient x.components
                    ≡ ok s)
                  same paid)
                d is_in in
            (unit, q, HasDefaultUnit-ledger (w.tokens set_token) l c unit has, mul, balance);
      }

  -- A successful `redeem` burns the quantity, and pays out of every component its unit times the
  -- quantity, rounded down.
  pub redeem-Redeems :
      (w : World S) (sender set_token quantity recipient : ℕ) (w' : World S)
      → redeem this w sender set_token quantity recipient ≡ ok w'
      → Redeems w w' set_token quantity
  unfolding redeem
  redeem-Redeems w sender set_token quantity recipient w' h =
      let (valid, h1) =
        require-inversion
          (is_set_valid_and_initialized w.controller this set_token (w.tokens set_token))
          "Must be a valid and initialized SetToken" _ h in
      let (positive, h2) = require-inversion (ltb 0 quantity) "Redeem quantity must be > 0" _ h1 in
      let (t, e, h3) =
        bind-inversion (burn w.controller.is_module (w.tokens set_token) this sender quantity) _
          h2 in
      let (s, paid, h4) =
        bind-inversion
          (pay_components w.controller.is_module w.outside this set_token t quantity recipient
            t.components)
          _ h3 in
      subst (λ v. Redeems w v set_token quantity) (ok_injective h4)
        (redeemed w sender set_token quantity recipient s t e paid)
