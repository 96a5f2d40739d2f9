-- ===== src/Contracts/BasicIssuance/RoundTrip.antt =====
-- contracts/protocol/modules/BasicIssuanceModule.sol: an issue that is redeemed.
use native.Mathlib.Nat.{mul_comm}
use set_protocol_v2_contract.Common.{
  ℕ, suc, ◌+◌, ◌*◌, ◌/◌, ◌^◌, ◌≤◌, ◌<◌, ◌≡◌, ok, arith, sym, ap, ◌∙◌, subst,
}
use set_protocol_v2_contract.Common.Lists.{count}
use set_protocol_v2_contract.External.OpenZeppelin.{SafeMath, SignedSafeMath, SafeCast, Erc20}
use set_protocol_v2_contract.External.TokenContracts.{Erc20Contracts}
use set_protocol_v2_contract.Contracts.PreciseUnitMath.Unsigned.{
  precise_mul_ceil-covers, precise_mul-inversion,
}
use set_protocol_v2_contract.Contracts.SetToken.Validity.{IsDistinctArray}
use set_protocol_v2_contract.Contracts.BasicIssuance.{
  World, PreIssueHook, issue, redeem, call_pre_issue_hooks,
}
use set_protocol_v2_contract.Contracts.BasicIssuance.Loops.{HasDefaultUnit}
use set_protocol_v2_contract.Contracts.BasicIssuance.Outcomes.{
  issue-Issues, redeem-Redeems, HasDefaultUnit-ledger,
}
use set_protocol_v2_contract.Contracts.BasicIssuance.Backing.{HasDefaultUnit-unique}

-- The quotient rounded up is the quotient rounded down, or one more.
up_and_down :
    (x n : ℕ)
    → x ≤ n * 10 ^ 18
    → n * 10 ^ 18 < x + 10 ^ 18
    → (x / 10 ^ 18 ≤ n) × (n ≤ suc (x / 10 ^ 18))
up_and_down x n low high = (omega (arith, low, high), omega (arith, low, high))

module _ {S : Type 0} (this : ℕ) ⦃sm : SafeMath⦄ ⦃ssm : SignedSafeMath⦄ ⦃sc : SafeCast⦄
    ⦃erc20 : Erc20⦄ ⦃tc : Erc20Contracts S⦄ where
  -- When a quantity is issued and, by whomever, redeemed again, on a token of distinct components, the
  -- supply is what it was after the manager's hook, and of each component the token holds what it held
  -- then, or one more: rounding never favours the user.
  pub issue-redeem :
      (hook : PreIssueHook S) (w : World S)
      (issuer redeemer set_token quantity issue_to redeem_to : ℕ) (w' w'' : World S)
      → IsDistinctArray ((w'.tokens set_token).components)
      → issue this hook w issuer set_token quantity issue_to ≡ ok w'
      → redeem this w' redeemer set_token quantity redeem_to ≡ ok w''
      → (hooked : World S × ℕ) × (call_pre_issue_hooks hook w set_token quantity issuer issue_to
          ≡ ok hooked)
        × ((w''.tokens set_token).ledger.total_supply
            ≡ (hooked.0.tokens set_token).ledger.total_supply)
        × ((c : ℕ)
            → 0 < count c (hooked.0.tokens set_token).components
            → (tc.balance_of hooked.0.outside c set_token ≤ tc.balance_of w''.outside c set_token)
              × (tc.balance_of w''.outside c set_token
                  ≤ suc (tc.balance_of hooked.0.outside c set_token)))
  issue-redeem hook w issuer redeemer set_token quantity issue_to redeem_to w' w'' d h k =
      let (hooked, e, i) = issue-Issues this hook w issuer set_token quantity issue_to w' h in
      let r = redeem-Redeems this w' redeemer set_token quantity redeem_to w'' k in
      let (l, same, grown) = i.supply in
      let (l', same', shrunk) = r.supply in
      let t = hooked.0.tokens set_token in
      let supply : (w'.tokens set_token).ledger.total_supply ≡ t.ledger.total_supply + quantity =
        ap (λ x. x.ledger.total_supply) same ∙ grown in
      let supply' : (w''.tokens set_token).ledger.total_supply + quantity
          ≡ (w'.tokens set_token).ledger.total_supply =
        ap (λ x. x.ledger.total_supply + quantity) same' ∙ shrunk in
      let d' : IsDistinctArray t.components = subst (λ x. IsDistinctArray x.components) same d in
      (
        hooked,
        e,
        omega (arith, supply, supply'),
        λ c listed.
            let (u, q, has, ceil, balance) = i.takes d' c listed in
            let (u', q', has', mul, balance') =
              r.pays d c (subst (λ x. 0 < count c x.components) (sym same) listed) in
            let one : u' ≡ u =
              HasDefaultUnit-unique t c u' u
                (HasDefaultUnit-ledger t l c u' (subst (λ x. HasDefaultUnit x c u') same has'))
                has in
            let (low, high) = precise_mul_ceil-covers u quantity q ceil in
            let floor : q' ≡ u * quantity / 10 ^ 18 =
              (precise_mul-inversion quantity u' q' mul).1
              ∙ rw one (ap (λ x. x / 10 ^ 18) (mul_comm quantity u)) in
            let (under, over) = up_and_down (u * quantity) q low high in
            (
              omega (arith, balance, balance', floor, under),
              omega (arith, balance, balance', floor, over),
            ),
      )
