-- ===== src/Utils/UniswapUtils/Balances.antt =====
-- utils/common/uniswapUtils.ts: the quantity that `calculateRebalanceQuantity` sells.
use native.Mathlib.Nat.{div-mul-le_self, mul-le-mul_right}
use set_protocol_v2_contract.Common.{
  ℕ, ◌+◌, ◌-◌, ◌*◌, ◌/◌, ◌^◌, ◌<◌, ◌≤◌, ◌≡◌, ◌⊎◌, ok, arith, inl, inr, refl, ltb, Bool-cases,
}
use set_protocol_v2_contract.Common.Integer.{pos, pos_sub, pos_quot, ◌+ℤ◌}
use set_protocol_v2_contract.External.Ethers.{BigNumber}
use set_protocol_v2_contract.Utils.Types.{Address}
use set_protocol_v2_contract.Utils.MathUtils.Naturals.{precise_mul-pos, precise_div-pos}
use set_protocol_v2_contract.Utils.UniswapUtils.{
  TokenHandle, Rebalance, calculate_rebalance_quantity, half_difference, text_is_positive,
}

-- Half of an excess over another value, at the price by which that value was found.
half_sells : (a b price : ℕ) → ((b * 10 ^ 18 / price - a) / 2) * price / 10 ^ 18 ≤ b
half_sells a b price =
    let v = b * 10 ^ 18 / price in
    let half : (v - a) / 2 ≤ v = omega arith in
    let one : (v - a) / 2 * price ≤ v * price = mul-le-mul_right price half in
    let two : v * price ≤ b * 10 ^ 18 = div-mul-le_self (b * 10 ^ 18) price in
    omega (arith, one, two)

add_zero : (a : ℕ) → pos a +ℤ pos 0 ≡ pos a
unfolding ◌+ℤ◌
add_zero a = ground arith

module _ ⦃bn : BigNumber⦄ where
  -- With no quantity given and no extra assets, for balances that are not negative and a positive
  -- price, `calculateRebalanceQuantity` returns: it sells from the asset that is worth more, never
  -- more than the balance, and when that is the first asset, what is left of it and the value of the
  -- second plus what is bought differ by at most one.
  pub calculate_rebalance_quantity-bound :
      (set_token : Address) (one two : TokenHandle) (a b price : ℕ)
      → one.balance_of set_token ≡ ok (pos a)
      → two.balance_of set_token ≡ ok (pos b)
      → 0 < price
      → (q : ℕ) × (r : Rebalance) × (calculate_rebalance_quantity
            (pos 0)
            set_token
            one
            two
            (pos price)
            (pos 0)
            (pos 0)
          ≡ ok r)
        × (r.quantity_to_sell ≡ pos q)
        × (((b * 10 ^ 18 / price < a)
              × (r.asset_to_sell ≡ one.address)
              × (q ≤ a)
              × (b * 10 ^ 18 / price + q ≤ a - q)
              × (a - q ≤ b * 10 ^ 18 / price + q + 1))
            ⊎ ((a ≤ b * 10 ^ 18 / price) × (r.asset_to_sell ≡ two.address) × (q ≤ b)))
  unfolding calculate_rebalance_quantity half_difference text_is_positive
  calculate_rebalance_quantity-bound set_token one two a b price ha hb h =
      let v = b * 10 ^ 18 / price in
      elim (Bool-cases (ltb v a)) [
        | inl more ↦
            let le : v ≤ a = ground arith in
            (
              (a - v) / 2,
              record {
                quantity_to_sell = pos ((a - v) / 2);
                asset_to_sell = one.address;
                asset_to_buy = two.address;
              },
              rw (ha, hb)
                  (simp (bn.add_lem, bn.sub_lem, bn.gt_lem, bn.div_lem)
                    (rw (add_zero a, add_zero b, precise_div-pos b price h)
                      (ground (arith, pos_sub a v le, pos_quot (a - v) 2)))),
              refl,
              inl (ground arith, refl, omega arith, omega arith, omega arith),
            )
        | inr less ↦
            let le : a ≤ v = ground arith in
            (
              ((v - a) / 2) * price / 10 ^ 18,
              record {
                quantity_to_sell = pos (((v - a) / 2) * price / 10 ^ 18);
                asset_to_sell = two.address;
                asset_to_buy = one.address;
              },
              rw (ha, hb)
                  (simp (bn.add_lem, bn.sub_lem, bn.gt_lem, bn.div_lem)
                    (rw (add_zero a, add_zero b, precise_div-pos b price h)
                      (ground (
                        arith,
                        pos_sub v a le,
                        pos_quot (v - a) 2,
                        precise_mul-pos ((v - a) / 2) price,
                      )))),
              refl,
              inr (le, refl, half_sells a b price),
            )
      ]
