-- ===== src/Contracts/BasicIssuance/Backing.antt =====
-- contracts/protocol/modules/BasicIssuanceModule.sol: the balances of the components cover the units
-- of the supply.
use native.Mathlib.Nat.{div-mul-le_self}
use set_protocol_v2_contract.Common.{
  ℕ, ◌+◌, ◌*◌, ◌^◌, ◌≤◌, ◌<◌, ◌≡◌, ok, arith, inl, inr, sym, ap, Bool-cases, Result-cases, ◌==◌,
  ◌∙◌, subst, ok_injective,
}
use set_protocol_v2_contract.Common.Integer.{pos}
use set_protocol_v2_contract.Common.Lists.{count}
use set_protocol_v2_contract.External.OpenZeppelin.{SafeMath, SignedSafeMath, SafeCast, Erc20}
use set_protocol_v2_contract.External.TokenContracts.{Erc20Contracts}
use set_protocol_v2_contract.Contracts.PreciseUnitMath.Unsigned.{
  precise_mul_ceil-covers, precise_mul-inversion,
}
use set_protocol_v2_contract.Contracts.SetToken.{SetToken}
use set_protocol_v2_contract.Contracts.SetToken.Validity.{IsDistinctArray}
use set_protocol_v2_contract.Contracts.BasicIssuance.{
  World, PreIssueHook, issue, redeem, call_pre_issue_hooks,
}
use set_protocol_v2_contract.Contracts.BasicIssuance.Loops.{HasDefaultUnit}
use set_protocol_v2_contract.Contracts.BasicIssuance.Outcomes.{
  Issues, Redeems, issue-Issues, redeem-Redeems, HasDefaultUnit-ledger,
}

pub HasDefaultUnit-unique :
    ⦃ssm : SignedSafeMath⦄ (t : SetToken) (c u v : ℕ)
    → HasDefaultUnit t c u
    → HasDefaultUnit t c v
    → u ≡ v
HasDefaultUnit-unique t c u v (a, _) (b, _) =
    let same : pos u ≡ pos v = ok_injective (sym a ∙ b) in ground arith

-- Taking in at least the units of what is issued.
issue_covers :
    (unit supply balance quantity q : ℕ)
    → unit * supply ≤ balance * 10 ^ 18
    → unit * quantity ≤ q * 10 ^ 18
    → unit * (supply + quantity) ≤ (balance + q) * 10 ^ 18
issue_covers unit supply balance quantity q h k = omega (arith, h, k)

-- Paying out at most the units of what is redeemed.
redeem_covers :
    (unit supply balance quantity q : ℕ)
    → unit * (supply + quantity) ≤ (balance + q) * 10 ^ 18
    → q * 10 ^ 18 ≤ quantity * unit
    → unit * supply ≤ balance * 10 ^ 18
redeem_covers unit supply balance quantity q h k = omega (arith, h, k)

module _ {S : Type 0} ⦃ssm : SignedSafeMath⦄ ⦃tc : Erc20Contracts S⦄ where
  -- No component is listed twice, and for each the unit times the supply is at most the balance.
  pub record IsBacked (w : World S) (set_token : ℕ) : Type 0 where
    pub distinct : IsDistinctArray (w.tokens set_token).components
    pub covers :
        (c unit : ℕ)
        → 0 < count c (w.tokens set_token).components
        → HasDefaultUnit (w.tokens set_token) c unit
        → unit * (w.tokens set_token).ledger.total_supply
          ≤ tc.balance_of w.outside c set_token * 10 ^ 18

  -- A hook of a manager that leaves a backed token backed.
  abbrev pub KeepsBacking : PreIssueHook S → ℕ → Type 0
  KeepsBacking hook set_token =
      (w : World S) (a quantity caller recipient : ℕ) (w' : World S)
      → hook w a set_token quantity caller recipient ≡ ok w'
      → IsBacked w set_token
      → IsBacked w' set_token

  hooked-IsBacked :
      (hook : PreIssueHook S) (w : World S) (set_token quantity caller recipient : ℕ)
      (hooked : World S × ℕ)
      → KeepsBacking hook set_token
      → call_pre_issue_hooks hook w set_token quantity caller recipient ≡ ok hooked
      → IsBacked w set_token
      → IsBacked hooked.0 set_token
  unfolding call_pre_issue_hooks
  hooked-IsBacked hook w set_token quantity caller recipient hooked keeps h b =
      elim (Bool-cases (w.manager_issuance_hook set_token == 0)) [
        | inl none ↦
            let same : (w, 0) ≡ hooked = ground arith in subst (λ x. IsBacked x.0 set_token) same b
        | inr some ↦
            elim (Result-cases
              (hook w (w.manager_issuance_hook set_token) set_token quantity caller recipient)) [
                | inr (x, e) ↦ absurd (ground arith)
                | inl (w', e) ↦
                    let same : (w', w.manager_issuance_hook set_token) ≡ hooked = ground arith in
                    subst (λ x. IsBacked x.0 set_token) same
                      (keeps w (w.manager_issuance_hook set_token) quantity caller recipient w' e b)
              ]
      ]

  module _ ⦃sm : SafeMath⦄ where
    Issues-IsBacked :
        (before after : World S) (set_token quantity : ℕ)
        → Issues before after set_token quantity
        → IsBacked before set_token
        → IsBacked after set_token
    Issues-IsBacked before after set_token quantity i b =
        let t = before.tokens set_token in
        let (l, same, grown) = i.supply in
        record {
          distinct = subst (λ x. IsDistinctArray x.components) (sym same) b.distinct;
          covers = λ c unit listed has.
              let listed' : 0 < count c t.components =
                subst (λ x. 0 < count c x.components) same listed in
              let has' : HasDefaultUnit t c unit =
                HasDefaultUnit-ledger t l c unit (subst (λ x. HasDefaultUnit x c unit) same has) in
              let (u, q, has_u, ceil, balance) = i.takes b.distinct c listed' in
              let one : u ≡ unit = HasDefaultUnit-unique t c u unit has_u has' in
              let (low, high) = precise_mul_ceil-covers u quantity q ceil in
              let supply : (after.tokens set_token).ledger.total_supply
                  ≡ t.ledger.total_supply + quantity =
                ap (λ x. x.ledger.total_supply) same ∙ grown in
              rw (supply, balance)
                (issue_covers unit t.ledger.total_supply (tc.balance_of before.outside c set_token)
                  quantity q (b.covers c unit listed' has')
                  (subst (λ x. x * quantity ≤ q * 10 ^ 18) one low));
        }

    Redeems-IsBacked :
        (before after : World S) (set_token quantity : ℕ)
        → Redeems before after set_token quantity
        → IsBacked before set_token
        → IsBacked after set_token
    Redeems-IsBacked before after set_token quantity r b =
        let t = before.tokens set_token in
        let (l, same, shrunk) = r.supply in
        record {
          distinct = subst (λ x. IsDistinctArray x.components) (sym same) b.distinct;
          covers = λ c unit listed has.
              let listed' : 0 < count c t.components =
                subst (λ x. 0 < count c x.components) same listed in
              let has' : HasDefaultUnit t c unit =
                HasDefaultUnit-ledger t l c unit (subst (λ x. HasDefaultUnit x c unit) same has) in
              let (u, q, has_u, mul, balance) = r.pays b.distinct c listed' in
              let one : u ≡ unit = HasDefaultUnit-unique t c u unit has_u has' in
              let (fits, floor) = precise_mul-inversion quantity u q mul in
              let low : q * 10 ^ 18 ≤ quantity * unit =
                rw (sym one, floor) (div-mul-le_self (quantity * u) (10 ^ 18)) in
              let supply : (after.tokens set_token).ledger.total_supply + quantity
                  ≡ t.ledger.total_supply =
                ap (λ x. x.ledger.total_supply + quantity) same ∙ shrunk in
              redeem_covers unit (after.tokens set_token).ledger.total_supply
                (tc.balance_of after.outside c set_token) quantity q
                (rw (supply, balance) (b.covers c unit listed' has')) low;
        }

module _ {S : Type 0} (this : ℕ) ⦃sm : SafeMath⦄ ⦃ssm : SignedSafeMath⦄ ⦃sc : SafeCast⦄
    ⦃erc20 : Erc20⦄ ⦃tc : Erc20Contracts S⦄ where
  -- What a token goes through: issues and redeems of anyone, and changes of the contracts outside,
  -- such as a transfer to the token, that take nothing from the token's balances.
  pub data IsReachable (hook : PreIssueHook S) (start : World S) (set_token : ℕ)
      : World S → Type 0 where
    starts : IsReachable hook start set_token start
    issues :
        (w : World S) (sender quantity recipient : ℕ) (w' : World S)
        → IsReachable hook start set_token w
        → issue this hook w sender set_token quantity recipient ≡ ok w'
        → IsReachable hook start set_token w'
    redeems :
        (w : World S) (sender quantity recipient : ℕ) (w' : World S)
        → IsReachable hook start set_token w
        → redeem this w sender set_token quantity recipient ≡ ok w'
        → IsReachable hook start set_token w'
    receives :
        (w : World S) (s : S)
        → IsReachable hook start set_token w
        → ((c : ℕ) → tc.balance_of w.outside c set_token ≤ tc.balance_of s c set_token)
        → IsReachable hook start set_token (record w { outside = s })

  -- A token that is backed stays so through any issues, redeems and transfers to it, where the hook
  -- of its manager keeps it so: the balance of every component covers its unit times the supply.
  pub reachable-IsBacked :
      (hook : PreIssueHook S) (start : World S) (set_token : ℕ) (w : World S)
      → KeepsBacking hook set_token
      → IsBacked start set_token
      → IsReachable hook start set_token w
      → IsBacked w set_token
  reachable-IsBacked hook start set_token w keeps b starts = b
  reachable-IsBacked hook start set_token w' keeps b
        (issues w sender quantity recipient _ before h) =
      let (hooked, e, i) = issue-Issues this hook w sender set_token quantity recipient w' h in
      Issues-IsBacked hooked.0 w' set_token quantity i (
        hooked-IsBacked hook w set_token quantity sender recipient hooked keeps e
          (reachable-IsBacked hook start set_token w keeps b before))
  reachable-IsBacked hook start set_token w' keeps b
        (redeems w sender quantity recipient _ before h) =
      Redeems-IsBacked w w' set_token quantity
        (redeem-Redeems this w sender set_token quantity recipient w' h)
        (reachable-IsBacked hook start set_token w keeps b before)
  reachable-IsBacked hook start set_token _ keeps b (receives w s before more) =
      let was = reachable-IsBacked hook start set_token w keeps b before in
      record {
        distinct = was.distinct;
        covers = λ c unit listed has. omega (arith, was.covers c unit listed has, more c);
      }
