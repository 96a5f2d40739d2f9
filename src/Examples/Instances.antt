-- ===== src/Examples/Instances.antt =====
-- Concrete functions for the libraries that the source calls.
use set_protocol_v2_contract.Common.{
  ℕ, ◌+◌, ◌-◌, ◌*◌, ◌/◌, ◌^◌, ◌≡◌, refl, [], Result, ok, err, fault, if◌then◌else◌, ltb, leb, ◌==◌,
  arith,
}
use set_protocol_v2_contract.Common.Integer.{
  pos, ◌+ℤ◌, ◌-ℤ◌, ◌*ℤ◌, quot, euclid_mod, pos_part, ltb_ℤ, leb_ℤ, eqb_ℤ,
}
use set_protocol_v2_contract.External.Decimal.{decimal}
use set_protocol_v2_contract.External.Ethers.{BigNumber, EthersUtils}
use set_protocol_v2_contract.External.OpenZeppelin.{
  SafeMath, SignedSafeMath, SafeCast, Erc20, Ledger, fits_uint, fits_int, uint_limit,
}
use set_protocol_v2_contract.Utils.Network.{Network}
use set_protocol_v2_contract.Contracts.Storage.{update}

abbrev pub big_numbers : BigNumber
big_numbers = record {
  add = λ a b. a +ℤ b;
  sub = λ a b. a -ℤ b;
  mul = λ a b. a *ℤ b;
  div = λ a b. if eqb_ℤ b (pos 0) then err fault else ok (quot a b);
  mod' = λ a b. if leb_ℤ b (pos 0) then err fault else ok (euclid_mod a b);
  eq = λ a b. eqb_ℤ a b;
  lt = λ a b. ltb_ℤ a b;
  gt = λ a b. ltb_ℤ b a;
  gte = λ a b. leb_ℤ b a;
  is_zero = λ a. eqb_ℤ a (pos 0);
  to_string = decimal;
  from_number = λ n. if ltb n (2 ^ 53 - 1) then ok (pos n) else err fault;
  add_lem = λ a b. refl;
  sub_lem = λ a b. refl;
  mul_lem = λ a b. refl;
  div_lem = λ a b. refl;
  mod_lem = λ a b. refl;
  eq_lem = λ a b. refl;
  lt_lem = λ a b. refl;
  gt_lem = λ a b. refl;
  gte_lem = λ a b. refl;
  is_zero_lem = λ a. refl;
  to_string_lem = λ a. refl;
  from_number_lem = λ n. refl;
}

abbrev pub safe_math : SafeMath
safe_math = record {
  add = λ a b. fits_uint (a + b);
  sub = λ a b. if leb b a then ok (a - b) else err fault;
  mul = λ a b. fits_uint (a * b);
  div = λ a b. if b == 0 then err fault else ok (a / b);
  add_lem = λ a b. refl;
  sub_lem = λ a b. refl;
  mul_lem = λ a b. refl;
  div_lem = λ a b. refl;
}

abbrev pub signed_safe_math : SignedSafeMath
signed_safe_math = record {
  add = λ a b. fits_int (a +ℤ b);
  sub = λ a b. fits_int (a -ℤ b);
  mul = λ a b. fits_int (a *ℤ b);
  div = λ a b. if eqb_ℤ b (pos 0) then err fault else fits_int (quot a b);
  add_lem = λ a b. refl;
  sub_lem = λ a b. refl;
  mul_lem = λ a b. refl;
  div_lem = λ a b. refl;
}

abbrev pub safe_cast : SafeCast
safe_cast = record {
  to_uint = λ a. if leb_ℤ (pos 0) a then ok (pos_part a) else err fault;
  to_int = λ n. if ltb n (2 ^ 255) then ok (pos n) else err fault;
  to_uint_lem = λ a. refl;
  to_int_lem = λ n. refl;
}

abbrev pub credit : Ledger → ℕ → ℕ → Result Ledger
credit l account quantity =
    if account == 0
    then err fault
    else if ltb (l.total_supply + quantity) uint_limit
    then ok (record {
      balances = update l.balances account (l.balances account + quantity);
      total_supply = l.total_supply + quantity;
    })
    else err fault

-- The balances sum up to the supply, so a quantity that a balance covers is covered by the supply.
abbrev pub debit : Ledger → ℕ → ℕ → Result Ledger
debit l account quantity =
    if account == 0
    then err fault
    else if leb quantity (l.balances account)
    then if leb quantity l.total_supply
      then ok (record {
        balances = update l.balances account (l.balances account - quantity);
        total_supply = l.total_supply - quantity;
      })
      else err fault
    else err fault

abbrev pub credit_supply :
    (l : Ledger) (account quantity : ℕ) {l' : Ledger}
    → credit l account quantity ≡ ok l'
    → l'.total_supply ≡ l.total_supply + quantity
credit_supply l account quantity h = ground arith

abbrev pub debit_supply :
    (l : Ledger) (account quantity : ℕ) {l' : Ledger}
    → debit l account quantity ≡ ok l'
    → l'.total_supply + quantity ≡ l.total_supply
debit_supply l account quantity h = ground arith

abbrev pub erc20 : Erc20
erc20 = record {
  mint = credit;
  burn = debit;
  mint_supply = credit_supply;
  burn_supply = debit_supply;
}

-- Every deployment is given the same address, and every text reads as one ether.
abbrev pub network : Network
network = record {
  deployed = λ _ _. ok "0x01";
  sent = λ _ _. ok tt;
  node_answered = λ _ _. ok "0x1";
  address_read = λ _ _. ok "0x01";
  number_read = λ _ _. ok (pos 1);
  addresses_read = λ _ _. ok [];
}

abbrev pub ethers_utils : EthersUtils
ethers_utils = record { parse_ether = λ _. ok (pos (10 ^ 18)) }
