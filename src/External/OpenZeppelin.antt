-- ===== src/External/OpenZeppelin.antt =====
-- The libraries SafeMath and SignedSafeMath of @openzeppelin/contracts 3.1, on uint256 and int256:
-- each operation gives the exact result, or reverts where that does not fit.
use set_protocol_v2_contract.Common.{
  ℕ, ◌+◌, ◌-◌, ◌*◌, ◌/◌, ◌^◌, ◌≡◌, ◌&&◌, Result, ok, err, fault, if◌then◌else◌, ltb, leb, ◌==◌,
}
use set_protocol_v2_contract.Common.Integer.{
  pos_part, ℤ, pos, negsuc, ◌+ℤ◌, ◌-ℤ◌, ◌*ℤ◌, quot, leb_ℤ, eqb_ℤ,
}

-- One more than the greatest uint256.
abbrev pub uint_limit : ℕ
uint_limit = 2 ^ 256

-- `type(int256).max` and `type(int256).min`
abbrev pub max_int : ℤ
max_int = pos (2 ^ 255 - 1)

abbrev pub min_int : ℤ
min_int = negsuc (2 ^ 255 - 1)

abbrev pub fits_uint : ℕ → Result ℕ
fits_uint n = if ltb n uint_limit then ok n else err fault

abbrev pub fits_int : ℤ → Result ℤ
fits_int x = if leb_ℤ min_int x && leb_ℤ x max_int then ok x else err fault

pub record SafeMath : Type 0 where
  pub add : ℕ → ℕ → Result ℕ
  pub sub : ℕ → ℕ → Result ℕ
  pub mul : ℕ → ℕ → Result ℕ
  pub div : ℕ → ℕ → Result ℕ
  pub add_lem : (a b : ℕ) → add a b ≡ fits_uint (a + b)
  pub sub_lem : (a b : ℕ) → sub a b ≡ (if leb b a then ok (a - b) else err fault)
  pub mul_lem : (a b : ℕ) → mul a b ≡ fits_uint (a * b)
  pub div_lem : (a b : ℕ) → div a b ≡ (if b == 0 then err fault else ok (a / b))

pub record SignedSafeMath : Type 0 where
  pub add : ℤ → ℤ → Result ℤ
  pub sub : ℤ → ℤ → Result ℤ
  pub mul : ℤ → ℤ → Result ℤ
  pub div : ℤ → ℤ → Result ℤ
  pub add_lem : (a b : ℤ) → add a b ≡ fits_int (a +ℤ b)
  pub sub_lem : (a b : ℤ) → sub a b ≡ fits_int (a -ℤ b)
  pub mul_lem : (a b : ℤ) → mul a b ≡ fits_int (a *ℤ b)
  -- It reverts on a zero divisor, and on the least int256 by -1.
  pub div_lem : (a b : ℤ) → div a b ≡ (if eqb_ℤ b (pos 0) then err fault else fits_int (quot a b))

-- `toUint256` of an int256 and `toInt256` of a uint256, of the library SafeCast.
pub record SafeCast : Type 0 where
  pub to_uint : ℤ → Result ℕ
  pub to_int : ℕ → Result ℤ
  pub to_uint_lem : (a : ℤ) → to_uint a ≡ (if leb_ℤ (pos 0) a then ok (pos_part a) else err fault)
  pub to_int_lem : (n : ℕ) → to_int n ≡ (if ltb n (2 ^ 255) then ok (pos n) else err fault)

-- The balances and the supply of an ERC20 token.
pub record Ledger : Type 0 where
  pub balances : ℕ → ℕ
  pub total_supply : ℕ

-- `_mint` and `_burn` of the contract ERC20: they revert on the zero address, `_mint` where the
-- supply would not fit, and `_burn` where the balance is too small.
pub record Erc20 : Type 0 where
  pub mint : Ledger → ℕ → ℕ → Result Ledger
  pub burn : Ledger → ℕ → ℕ → Result Ledger
  pub mint_supply :
      (l : Ledger) (account quantity : ℕ) {l' : Ledger}
      → mint l account quantity ≡ ok l'
      → l'.total_supply ≡ l.total_supply + quantity
  pub burn_supply :
      (l : Ledger) (account quantity : ℕ) {l' : Ledger}
      → burn l account quantity ≡ ok l'
      → l'.total_supply + quantity ≡ l.total_supply
