-- ===== src/Contracts/Invoke.antt =====
-- contracts/protocol/lib/Invoke.sol: what a module has a token do at another contract.
use set_protocol_v2_contract.Common.{
  ℕ, Bool, String, Result, ok, ◌>>=◌, ◌>>◌, require, if◌then◌else◌, ltb, ◌==◌,
}
use set_protocol_v2_contract.External.OpenZeppelin.{SafeMath}
use set_protocol_v2_contract.External.TokenContracts.{Erc20Contracts}
use set_protocol_v2_contract.Contracts.SetToken.{SetToken, invoke}

-- `sender` is the module that uses the library, and `set_token` is the address of the token `t`.
module _ {S : Type 0} (is_module : ℕ → Bool) ⦃tc : Erc20Contracts S⦄ where
  -- The token does not change by `invoke`: what is called does.
  unfoldable pub invoke_call : S → ℕ → ℕ → SetToken → ℕ → ℕ → String → Result S
  invoke_call s sender set_token t target value call_data = do
    answered ← invoke is_module (tc.call_with_value s set_token) t sender target value call_data
    ok answered.1.0

  unfoldable pub invoke_approve : S → ℕ → ℕ → SetToken → ℕ → ℕ → ℕ → Result S
  invoke_approve s sender set_token t token spender quantity =
      invoke_call s sender set_token t token 0 (tc.encode_approve spender quantity)

  unfoldable pub invoke_transfer : S → ℕ → ℕ → SetToken → ℕ → ℕ → ℕ → Result S
  invoke_transfer s sender set_token t token payee quantity =
      if ltb 0 quantity
      then invoke_call s sender set_token t token 0 (tc.encode_transfer payee quantity)
      else ok s

  unfoldable pub strict_invoke_transfer :
      ⦃sm : SafeMath⦄ → S → ℕ → ℕ → SetToken → ℕ → ℕ → ℕ → Result S
  strict_invoke_transfer ⦃sm⦄ s sender set_token t token payee quantity =
      if ltb 0 quantity
      then (do
        s' ← invoke_transfer s sender set_token t token payee quantity
        expected ← sm.sub (tc.balance_of s token set_token) quantity
        require (tc.balance_of s' token set_token == expected) "Invalid post transfer balance"
        ok s')
      else ok s

  unfoldable pub invoke_unwrap_weth : S → ℕ → ℕ → SetToken → ℕ → ℕ → Result S
  invoke_unwrap_weth s sender set_token t weth quantity =
      invoke_call s sender set_token t weth 0 (tc.encode_withdraw quantity)

  unfoldable pub invoke_wrap_weth : S → ℕ → ℕ → SetToken → ℕ → ℕ → Result S
  invoke_wrap_weth s sender set_token t weth quantity =
      invoke_call s sender set_token t weth quantity tc.encode_deposit
