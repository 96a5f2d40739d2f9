-- ===== src/Examples/Predictions.antt =====
-- utils/common/feeModuleUtils.ts, navIssuanceModuleUtils.ts and uniswapUtils.ts at numbers.
use set_protocol_v2_contract.Common.{
  ℕ, ◌+◌, ◌-◌, ◌*◌, ◌/◌, ◌^◌, ◌<◌, ◌≤◌, ◌≡◌, ◌⊎◌, refl, List, [], ◌∷◌, map, ok, arith,
}
use set_protocol_v2_contract.Common.Integer.{ℤ, pos, negsuc}
use set_protocol_v2_contract.Utils.FeeModuleUtils.{get_post_fee_position_units}
use set_protocol_v2_contract.Utils.FeeModuleUtils.Rounding.{
  left_of, get_post_fee_position_units-left_of,
}
use set_protocol_v2_contract.Utils.NavIssuanceModuleUtils.{
  get_expected_issue_position_multiplier, get_expected_redeem_position_multiplier,
}
use set_protocol_v2_contract.Utils.NavIssuanceModuleUtils.Multipliers.{
  get_expected_issue_position_multiplier-bound, get_expected_redeem_position_multiplier-bound,
}
use set_protocol_v2_contract.Utils.UniswapUtils.{
  TokenHandle, Rebalance, calculate_rebalance_quantity,
}
use set_protocol_v2_contract.Utils.UniswapUtils.Balances.{calculate_rebalance_quantity-bound}
use set_protocol_v2_contract.Examples.Instances.{big_numbers}

-- A unit of 7 and a debt of 5, at 50%.
abbrev two_units : List ℤ
two_units = pos 7 ∷ negsuc 4 ∷ []

get_post_fee_position_units-left_of_example :
    get_post_fee_position_units ⦃bn = big_numbers⦄ two_units (pos (5 * 10 ^ 17))
    ≡ ok (map (left_of (5 * 10 ^ 17)) two_units)
get_post_fee_position_units-left_of_example =
    get_post_fee_position_units-left_of ⦃bn = big_numbers⦄ two_units (5 * 10 ^ 17) (ground arith)

get_expected_issue_position_multiplier-bound_example :
    (m' : ℕ) × (get_expected_issue_position_multiplier ⦃bn = big_numbers⦄
        (pos (10 ^ 18))
        (pos 2)
        (pos 3)
      ≡ ok (pos m'))
    × (3 * m' ≤ 2 * 10 ^ 18)
get_expected_issue_position_multiplier-bound_example =
    get_expected_issue_position_multiplier-bound ⦃bn = big_numbers⦄ (10 ^ 18) 2 3 (omega arith)
      (omega arith)

get_expected_redeem_position_multiplier-bound_example :
    (m' : ℕ) × (get_expected_redeem_position_multiplier ⦃bn = big_numbers⦄
        (pos (10 ^ 18))
        (pos 3)
        (pos 2)
      ≡ ok (pos m'))
    × (2 * m' ≤ 3 * 10 ^ 18)
get_expected_redeem_position_multiplier-bound_example =
    get_expected_redeem_position_multiplier-bound ⦃bn = big_numbers⦄ (10 ^ 18) 3 2 (omega arith)
      (omega arith)

-- 5 of the first asset and 4 of the second, at a price of 2.
abbrev asset_one : TokenHandle
asset_one = record { address = "0x01"; balance_of = λ _. ok (pos 5) }

abbrev asset_two : TokenHandle
asset_two = record { address = "0x02"; balance_of = λ _. ok (pos 4) }

calculate_rebalance_quantity-bound_example :
    (q : ℕ) × (r : Rebalance) × (calculate_rebalance_quantity ⦃bn = big_numbers⦄
        (pos 0)
        "0x64"
        asset_one
        asset_two
        (pos (2 * 10 ^ 18))
        (pos 0)
        (pos 0)
      ≡ ok r)
    × (r.quantity_to_sell ≡ pos q)
    × (((4 * 10 ^ 18 / (2 * 10 ^ 18) < 5)
          × (r.asset_to_sell ≡ "0x01")
          × (q ≤ 5)
          × (4 * 10 ^ 18 / (2 * 10 ^ 18) + q ≤ 5 - q)
          × (5 - q ≤ 4 * 10 ^ 18 / (2 * 10 ^ 18) + q + 1))
        ⊎ ((5 ≤ 4 * 10 ^ 18 / (2 * 10 ^ 18)) × (r.asset_to_sell ≡ "0x02") × (q ≤ 4)))
calculate_rebalance_quantity-bound_example =
    calculate_rebalance_quantity-bound ⦃bn = big_numbers⦄ "0x64" asset_one asset_two 5 4
      (2 * 10 ^ 18) refl refl (omega arith)
