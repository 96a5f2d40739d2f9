-- ===== src/Utils/UniswapUtils.antt =====
-- utils/common/uniswapUtils.ts: the quantities of the yield strategy on Uniswap.
-- The contracts that are called are records of their answers.
pub mod Balances
pub mod SquareRoot
use Prim.Native.Nat.{Ordering}
use Prim.Native.String.{compare}
use set_protocol_v2_contract.Common.{
  String, Bool, true, false, List, [], ◌∷◌, Result, ok, ◌>>=◌, if◌then◌else◌,
}
use set_protocol_v2_contract.Common.Integer.{ℤ, pos, ltb_ℤ}
use set_protocol_v2_contract.External.Ethers.{BigNumber, EthersUtils}
use set_protocol_v2_contract.Utils.Types.{Address}
use set_protocol_v2_contract.Utils.UnitsUtils.{ether}
use set_protocol_v2_contract.Utils.MathUtils.{precise_mul, precise_div}

pub record TokenHandle : Type 0 where
  pub address : Address
  pub balance_of : Address → Result ℤ

pub record PairHandle : Type 0 where
  pub get_reserves : Result (ℤ × ℤ)
  pub total_supply : Result ℤ

pub record RouterHandle : Type 0 where
  pub get_amounts_out : ℤ → List Address → Result (List ℤ)

-- What `calculateRebalanceQuantity` returns.
pub record Rebalance : Type 0 where
  pub quantity_to_sell : ℤ
  pub asset_to_sell : Address
  pub asset_to_buy : Address

-- `x > ZERO` of two BigNumbers compares their decimal texts. A text that starts with "-" is below
-- "0", and one that starts with another digit is above it, as the numbers are.
unfoldable pub text_is_positive : ℤ → Bool
text_is_positive x = ltb_ℤ (pos 0) x

module _ ⦃bn : BigNumber⦄ where
  open bn use {add, sub, div, gt}

  -- Half of the difference of the two values, in the asset that is worth more.
  unfoldable pub half_difference : ℤ → ℤ → ℤ → TokenHandle → TokenHandle → Result Rebalance
  half_difference balance_asset_one value_asset_two_denom_one asset_one_to_two_price asset_one
        asset_two =
      if gt balance_asset_one value_asset_two_denom_one
      then (do
        quantity ← div (sub balance_asset_one value_asset_two_denom_one) (pos 2)
        ok (record {
          quantity_to_sell = quantity;
          asset_to_sell = asset_one.address;
          asset_to_buy = asset_two.address;
        }))
      else (do
        half ← div (sub value_asset_two_denom_one balance_asset_one) (pos 2)
        quantity ← precise_mul half asset_one_to_two_price
        ok (record {
          quantity_to_sell = quantity;
          asset_to_sell = asset_two.address;
          asset_to_buy = asset_one.address;
        }))

  unfoldable pub calculate_rebalance_quantity :
      ℤ → Address → TokenHandle → TokenHandle → ℤ → ℤ → ℤ → Result Rebalance
  unfolding half_difference text_is_positive
  calculate_rebalance_quantity sell_token_quantity set_token asset_one asset_two
        asset_one_to_two_price extra_asset_one extra_asset_two =
      do
        one ← asset_one.balance_of set_token
        two ← asset_two.balance_of set_token
        let balance_asset_one = add one extra_asset_one
        let balance_asset_two = add two extra_asset_two
        value_asset_two_denom_one ← precise_div balance_asset_two asset_one_to_two_price
        r ←
            half_difference balance_asset_one value_asset_two_denom_one asset_one_to_two_price
              asset_one asset_two
        if text_is_positive sell_token_quantity
            then ok (record r { quantity_to_sell = sell_token_quantity })
            else ok r

  unfoldable pub calculate_rebalance_flows :
      Address → RouterHandle → ℤ → TokenHandle → TokenHandle → ℤ → ℤ → ℤ → Result (List ℤ)
  calculate_rebalance_flows set_token router sell_token_quantity asset_one asset_two
        asset_one_to_two_price extra_asset_one extra_asset_two =
      do
        r ←
            calculate_rebalance_quantity sell_token_quantity set_token asset_one asset_two
              asset_one_to_two_price extra_asset_one extra_asset_two
        router.get_amounts_out r.quantity_to_sell (r.asset_to_sell ∷ r.asset_to_buy ∷ [])

-- `assetOne < assetTwo` of two texts.
unfoldable pub text_is_below : Address → Address → Bool
text_is_below a b = elim (compare a b) [
  | Ordering.lt ↦ true
  | Ordering.eq ↦ false
  | Ordering.gt ↦ false
]

unfoldable pub same_text : Address → Address → Bool
same_text a b = elim (compare a b) [
  | Ordering.lt ↦ false
  | Ordering.eq ↦ true
  | Ordering.gt ↦ false
]

unfoldable pub get_reserves_safe : Address → Address → PairHandle → Result (ℤ × ℤ)
unfolding text_is_below same_text
get_reserves_safe asset_one asset_two lp_token =
    let first_asset = if text_is_below asset_one asset_two then asset_one else asset_two in
    do
      reserves ← lp_token.get_reserves
      if same_text asset_one first_asset
          then ok (reserves.0, reserves.1)
          else ok (reserves.1, reserves.0)

module _ ⦃bn : BigNumber⦄ where
  open bn use {add, sub}

  unfoldable pub calculate_tokens_in_reserve :
      Address → TokenHandle → TokenHandle → PairHandle → TokenHandle → Result (ℤ × ℤ)
  calculate_tokens_in_reserve set_token asset_one asset_two lp_token staking_rewards = do
    reserves ← get_reserves_safe asset_one.address asset_two.address lp_token
    total_supply ← lp_token.total_supply
    lp_token_balance ← staking_rewards.balance_of set_token
    share_one ← precise_div reserves.0 total_supply
    amount_one ← precise_mul share_one lp_token_balance
    share_two ← precise_div reserves.1 total_supply
    amount_two ← precise_mul share_two lp_token_balance
    ok (amount_one, amount_two)

  module _ ⦃utils : EthersUtils⦄ where
    -- One entry of the list that `calculateEngageQuantities` returns.
    unfoldable pub engage_quantity : ℤ → ℤ → ℤ → Result ℤ
    engage_quantity reserve reserve_percentage balance = do
      wanted ← precise_mul reserve reserve_percentage
      whole ← ether "1"
      held ← precise_mul balance (sub whole reserve_percentage)
      ok (sub wanted held)

    unfoldable pub calculate_engage_quantities :
        Address → TokenHandle → TokenHandle → PairHandle → TokenHandle → ℤ → ℤ → ℤ → Result (ℤ × ℤ)
    calculate_engage_quantities set_token asset_one asset_two lp_token staking_rewards
          reserve_percentage extra_asset_one extra_asset_two =
        do
          reserves ←
              calculate_tokens_in_reserve set_token asset_one asset_two lp_token staking_rewards
          balance_one ← asset_one.balance_of set_token
          balance_two ← asset_two.balance_of set_token
          quantity_one ←
              engage_quantity reserves.0 reserve_percentage (add balance_one extra_asset_one)
          quantity_two ←
              engage_quantity reserves.1 reserve_percentage (add balance_two extra_asset_two)
          ok (quantity_one, quantity_two)
