-- ===== src/Utils/UnitsUtils.antt =====
-- utils/common/unitsUtils.ts: amounts of ether, gwei, bitcoin and USDC in their least units. A
-- JavaScript number that is multiplied is a natural number here; `ether` takes the number's text.
use set_protocol_v2_contract.Common.{ℕ, ◌*◌, String, Result, ok, ◌>>=◌}
use set_protocol_v2_contract.Common.Integer.{ℤ, pos}
use set_protocol_v2_contract.External.Ethers.{BigNumber, EthersUtils}

module _ ⦃utils : EthersUtils⦄ where
  -- `BigNumber.from` of a BigNumber is that BigNumber.
  unfoldable pub ether : String → Result ℤ
  ether amount = utils.parse_ether amount

module _ ⦃bn : BigNumber⦄ where
  unfoldable pub g_wei : ℕ → Result ℤ
  g_wei amount = do n ← bn.from_number amount; ok (bn.mul (pos 1000000000) n)

  -- The product is one of JavaScript numbers, before the conversion.
  unfoldable pub bitcoin : ℕ → Result ℤ
  bitcoin amount = bn.from_number (100000000 * amount)

  unfoldable pub usdc : ℕ → Result ℤ
  usdc amount = do n ← bn.from_number amount; ok (bn.mul (pos 1000000) n)
