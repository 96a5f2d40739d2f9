-- ===== src/External/Ethers.antt =====
-- `BigNumber` of the package @ethersproject/bignumber: immutable integers of any size. Its
-- operations are fields, and the laws are the package's documentation of them.
use set_protocol_v2_contract.Common.{
  ℕ, ◌-◌, ◌^◌, String, ltb, Bool, ◌≡◌, Result, ok, err, fault, if◌then◌else◌,
}
use set_protocol_v2_contract.Common.Integer.{
  ℤ, pos, ◌+ℤ◌, ◌-ℤ◌, ◌*ℤ◌, quot, euclid_mod, ltb_ℤ, leb_ℤ, eqb_ℤ,
}
use set_protocol_v2_contract.External.Decimal.{decimal}

pub record BigNumber : Type 0 where
  pub add : ℤ → ℤ → ℤ
  pub sub : ℤ → ℤ → ℤ
  pub mul : ℤ → ℤ → ℤ
  pub div : ℤ → ℤ → Result ℤ
  pub mod' : ℤ → ℤ → Result ℤ
  pub eq : ℤ → ℤ → Bool
  pub lt : ℤ → ℤ → Bool
  pub gt : ℤ → ℤ → Bool
  pub gte : ℤ → ℤ → Bool
  pub is_zero : ℤ → Bool
  pub to_string : ℤ → String
  -- `BigNumber.from` of a JavaScript number.
  pub from_number : ℕ → Result ℤ
  pub add_lem : (a b : ℤ) → add a b ≡ a +ℤ b
  pub sub_lem : (a b : ℤ) → sub a b ≡ a -ℤ b
  pub mul_lem : (a b : ℤ) → mul a b ≡ a *ℤ b
  -- The quotient is rounded towards zero, and a division by zero throws.
  pub div_lem : (a b : ℤ) → div a b ≡ (if eqb_ℤ b (pos 0) then err fault else ok (quot a b))
  -- The remainder is never negative; a divisor that is not positive throws.
  pub mod_lem : (a b : ℤ) → mod' a b ≡ (if leb_ℤ b (pos 0) then err fault else ok (euclid_mod a b))
  pub eq_lem : (a b : ℤ) → eq a b ≡ eqb_ℤ a b
  pub lt_lem : (a b : ℤ) → lt a b ≡ ltb_ℤ a b
  pub gt_lem : (a b : ℤ) → gt a b ≡ ltb_ℤ b a
  pub gte_lem : (a b : ℤ) → gte a b ≡ leb_ℤ b a
  pub is_zero_lem : (a : ℤ) → is_zero a ≡ eqb_ℤ a (pos 0)
  -- The decimal text, which JavaScript compares where `<` or `>` stands between two BigNumbers.
  pub to_string_lem : (a : ℤ) → to_string a ≡ decimal a
  -- A number from 2 ^ 53 - 1 on is refused as unsafe.
  pub from_number_lem :
      (n : ℕ) → from_number n ≡ (if ltb n (2 ^ 53 - 1) then ok (pos n) else err fault)

-- The functions of `ethers.utils` that the source calls. `parseEther` reads a decimal text; what the
-- source relies on is its value, which stands beside the text where a theorem needs it.
pub record EthersUtils : Type 0 where
  pub parse_ether : String → Result ℤ

module _ ⦃bn : BigNumber⦄ where
  pub bn_add : (a b : ℤ) → bn.add a b ≡ a +ℤ b
  bn_add = bn.add_lem

  pub bn_sub : (a b : ℤ) → bn.sub a b ≡ a -ℤ b
  bn_sub = bn.sub_lem

  pub bn_mul : (a b : ℤ) → bn.mul a b ≡ a *ℤ b
  bn_mul = bn.mul_lem

  pub bn_div : (a b : ℤ) → bn.div a b ≡ (if eqb_ℤ b (pos 0) then err fault else ok (quot a b))
  bn_div = bn.div_lem

  pub bn_mod :
      (a b : ℤ) → bn.mod' a b ≡ (if leb_ℤ b (pos 0) then err fault else ok (euclid_mod a b))
  bn_mod = bn.mod_lem

  pub bn_eq : (a b : ℤ) → bn.eq a b ≡ eqb_ℤ a b
  bn_eq = bn.eq_lem

  pub bn_lt : (a b : ℤ) → bn.lt a b ≡ ltb_ℤ a b
  bn_lt = bn.lt_lem

  pub bn_gt : (a b : ℤ) → bn.gt a b ≡ ltb_ℤ b a
  bn_gt = bn.gt_lem

  pub bn_gte : (a b : ℤ) → bn.gte a b ≡ leb_ℤ b a
  bn_gte = bn.gte_lem

  pub bn_from_number :
      (n : ℕ) → bn.from_number n ≡ (if ltb n (2 ^ 53 - 1) then ok (pos n) else err fault)
  bn_from_number = bn.from_number_lem

  pub bn_is_zero : (a : ℤ) → bn.is_zero a ≡ eqb_ℤ a (pos 0)
  bn_is_zero = bn.is_zero_lem

-- The laws as one list for `simp`.
pub ruleset big_number = (
  bn_add, bn_sub, bn_mul, bn_div, bn_mod, bn_eq, bn_lt, bn_gt, bn_gte, bn_is_zero, bn_from_number,
)
