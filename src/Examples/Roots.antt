-- ===== src/Examples/Roots.antt =====
-- utils/common/uniswapUtils.ts: `sqrt` and `min` at small numbers.
use set_protocol_v2_contract.Common.{◌≡◌, refl, some, ok}
use set_protocol_v2_contract.Common.Integer.{pos, quot, ◌+ℤ◌}
use set_protocol_v2_contract.Utils.UniswapUtils.{text_is_below}
use set_protocol_v2_contract.Utils.UniswapUtils.SquareRoot.{
  reads_below, newton_loop, sqrt_within, sqrt, min,
}
use set_protocol_v2_contract.Examples.Instances.{big_numbers}

-- The texts "8" and "13" end the loop early, and "16" is not above "3".
sqrt_of_fifty : sqrt ⦃bn = big_numbers⦄ (pos 50) ≡ ok (some (pos 13))
unfolding sqrt sqrt_within newton_loop reads_below text_is_below quot ◌+ℤ◌
sqrt_of_fifty = refl

sqrt_of_sixteen : sqrt ⦃bn = big_numbers⦄ (pos 16) ≡ ok (some (pos 1))
unfolding sqrt sqrt_within newton_loop reads_below text_is_below quot ◌+ℤ◌
sqrt_of_sixteen = refl

min_of_nine_and_ten : min ⦃bn = big_numbers⦄ (pos 9) (pos 10) ≡ pos 10
unfolding min reads_below text_is_below
min_of_nine_and_ten = refl
