-- ===== src/External/TokenContracts.antt =====
-- The ERC20 contracts that the modules move components of. Their code is not of the repository, and
-- what they store is a type of their own.
use set_protocol_v2_contract.Common.{ℕ, String, Result, ok, ◌≡◌, ◌≢◌}

pub record Erc20Contracts (S : Type 0) : Type 0 where
  -- The balance of a holder at a token.
  pub balance_of : S → ℕ → ℕ → ℕ
  -- `SafeERC20.safeTransferFrom` of a token: the spender, from whom, to whom, and how much.
  pub safe_transfer_from : S → ℕ → ℕ → ℕ → ℕ → ℕ → Result S
  -- A call of a contract by a sender, with the value and the data.
  pub call_with_value : S → ℕ → ℕ → ℕ → String → Result (S × String)
  -- `abi.encodeWithSignature` of `transfer(address,uint256)` and `approve(address,uint256)`
  pub encode_transfer : ℕ → ℕ → String
  pub encode_approve : ℕ → ℕ → String
  -- `withdraw(uint256)` and `deposit()` of WETH
  pub encode_withdraw : ℕ → String
  pub encode_deposit : String
  -- A transfer of one token moves no balance of another.
  pub transfer_from-others :
      (s : S) (token spender payer payee quantity : ℕ) (s' : S) (c holder : ℕ)
      → safe_transfer_from s token spender payer payee quantity ≡ ok s'
      → c ≢ token
      → balance_of s' c holder ≡ balance_of s c holder
  pub transfer-others :
      (s : S) (sender token payee quantity : ℕ) (s' : S) (answer : String) (c holder : ℕ)
      → call_with_value s sender token 0 (encode_transfer payee quantity) ≡ ok (s', answer)
      → c ≢ token
      → balance_of s' c holder ≡ balance_of s c holder
