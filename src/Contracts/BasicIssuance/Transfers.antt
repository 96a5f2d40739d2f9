-- ===== src/Contracts/BasicIssuance/Transfers.antt =====
-- contracts/lib/ExplicitERC20.sol and contracts/protocol/lib/Invoke.sol: the balances that a checked
-- transfer leaves.
use set_protocol_v2_contract.Common.{
  ℕ, Bool, ◌+◌, ◌≡◌, ◌≢◌, ok, arith, ltb, Bool-cases, inl, inr, sym, Result-cases,
}
use set_protocol_v2_contract.External.OpenZeppelin.{SafeMath}
use set_protocol_v2_contract.External.TokenContracts.{Erc20Contracts}
use set_protocol_v2_contract.Contracts.SetToken.{SetToken, invoke, privileged}
use set_protocol_v2_contract.Contracts.ModuleBase.{transfer_from}
use set_protocol_v2_contract.Contracts.Invoke.{strict_invoke_transfer, invoke_transfer, invoke_call}

module _ {S : Type 0} ⦃sm : SafeMath⦄ ⦃tc : Erc20Contracts S⦄ where
  -- A transfer that passes the check of ExplicitERC20 has raised the payee's balance by the quantity.
  pub transfer_from-raises :
      (s : S) (token spender payer payee quantity : ℕ) (s' : S)
      → transfer_from s token spender payer payee quantity ≡ ok s'
      → tc.balance_of s' token payee ≡ tc.balance_of s token payee + quantity
  unfolding transfer_from
  transfer_from-raises s token spender payer payee quantity s' h =
      ground (arith, sm.add_lem (tc.balance_of s token payee) quantity)

  pub transfer_from-keeps :
      (s : S) (token spender payer payee quantity : ℕ) (s' : S) (c holder : ℕ)
      → transfer_from s token spender payer payee quantity ≡ ok s'
      → c ≢ token
      → tc.balance_of s' c holder ≡ tc.balance_of s c holder
  unfolding transfer_from
  transfer_from-keeps s token spender payer payee quantity s' c holder h other =
      elim (Bool-cases (ltb 0 quantity)) [
        | inr none ↦ ground arith
        | inl some ↦
            elim (Result-cases (tc.safe_transfer_from s token spender payer payee quantity)) [
              | inr (x, e) ↦ absurd (ground arith)
              | inl (s1, e) ↦
                  let same : s1 ≡ s' = ground arith in
                  rw (sym same) (
                    tc.transfer_from-others s token spender payer payee quantity s1 c holder e
                      other)
            ]
      ]

  module _ (is_module : ℕ → Bool) where
    pub strict_invoke_transfer-lowers :
        (s : S) (sender set_token : ℕ) (t : SetToken) (token payee quantity : ℕ) (s' : S)
        → strict_invoke_transfer is_module s sender set_token t token payee quantity ≡ ok s'
        → tc.balance_of s' token set_token + quantity ≡ tc.balance_of s token set_token
    unfolding strict_invoke_transfer
    strict_invoke_transfer-lowers s sender set_token t token payee quantity s' h =
        ground (arith, sm.sub_lem (tc.balance_of s token set_token) quantity)

    pub strict_invoke_transfer-keeps :
        (s : S) (sender set_token : ℕ) (t : SetToken) (token payee quantity : ℕ) (s' : S)
        (c holder : ℕ)
        → strict_invoke_transfer is_module s sender set_token t token payee quantity ≡ ok s'
        → c ≢ token
        → tc.balance_of s' c holder ≡ tc.balance_of s c holder
    unfolding strict_invoke_transfer invoke_transfer invoke_call invoke
    strict_invoke_transfer-keeps s sender set_token t token payee quantity s' c holder h other =
        elim (Bool-cases (ltb 0 quantity)) [
          | inr none ↦ ground arith
          | inl some ↦ elim (Result-cases (privileged is_module t sender)) [
            | inr (x, e) ↦ absurd (ground arith)
            | inl (u, e) ↦
                elim (Result-cases
                  (tc.call_with_value s set_token token 0 (tc.encode_transfer payee quantity))) [
                    | inr (x, e') ↦ absurd (ground arith)
                    | inl ((s1, answer), e') ↦
                        let same : s1 ≡ s' = ground arith in
                        rw (sym same) (
                          tc.transfer-others s set_token token payee quantity s1 answer c holder e'
                            other)
                  ]
          ]
        ]
