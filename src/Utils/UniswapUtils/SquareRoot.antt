-- ===== src/Utils/UniswapUtils/SquareRoot.antt =====
-- utils/common/uniswapUtils.ts: `sqrt` and `min`, which compare the texts of the numbers.
pub mod Newton
pub mod Termination
use Prim.Native.Nat.{Ordering}
use Prim.Native.String.{compare}
use set_protocol_v2_contract.Common.{
  ℕ, zero, suc, ◌+◌, String, Bool, true, false, Option, none, some, Result, ok, err, fault, ◌>>=◌,
  if◌then◌else◌,
}
use set_protocol_v2_contract.Common.Integer.{ℤ, pos, pos_part}
use set_protocol_v2_contract.External.Ethers.{BigNumber}
use set_protocol_v2_contract.Utils.UniswapUtils.{text_is_below, PairHandle}

module _ ⦃bn : BigNumber⦄ where
  open bn use {add, sub, mul, div, to_string, from_number}

  -- `a < b` of two BigNumbers.
  unfoldable pub reads_below : ℤ → ℤ → Bool
  unfolding text_is_below
  reads_below a b = text_is_below (to_string a) (to_string b)

  -- The while loop of `sqrt` for at most so many rounds: `none` where they do not suffice.
  unfoldable pub newton_loop : ℕ → ℤ → ℤ → ℤ → Result (Option ℤ)
  newton_loop zero value z x = ok none
  newton_loop (suc rounds) value z x = elim (reads_below x z) [
    | false ↦ ok (some z)
    | true ↦ do
      quotient ← div value x
      next ← div (add quotient x) (pos 2)
      newton_loop rounds value x next
  ]

  -- `value != ZERO` compares two objects, which are never one.
  unfoldable pub sqrt_within : ℕ → ℤ → Result (Option ℤ)
  sqrt_within rounds value = do
    three ← from_number 3
    if reads_below three value
        then (do half ← div value (pos 2); newton_loop rounds value value (add half (pos 1)))
        else (do z ← from_number 1; ok (some z))

  -- The number of rounds that is always enough.
  unfoldable pub sqrt : ℤ → Result (Option ℤ)
  sqrt value = sqrt_within (pos_part value + 3) value

  unfoldable pub min : ℤ → ℤ → ℤ
  min value_one value_two = if reads_below value_one value_two then value_one else value_two

  -- `totalSupply == ZERO` compares two objects, which are never one, so `sqrt` is not called.
  unfoldable pub calculate_lp_tokens_issued : PairHandle → ℤ → ℤ → Result ℤ
  calculate_lp_tokens_issued pool amount_one amount_two = do
    reserves ← pool.get_reserves
    total_supply ← pool.total_supply
    one ← div (mul amount_one total_supply) reserves.0
    two ← div (mul amount_two total_supply) reserves.1
    ok (min one two)
