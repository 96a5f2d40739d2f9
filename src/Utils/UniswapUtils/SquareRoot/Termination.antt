-- ===== src/Utils/UniswapUtils/SquareRoot/Termination.antt =====
-- utils/common/uniswapUtils.ts: `sqrt` ends, although its loop compares texts.
use Prim.Native.Nat.{Ordering, compare as compare_ℕ}
use Prim.Native.String.compare
use Prim.Native.String.{compare}
use set_protocol_v2_contract.Common.{ℕ, String, some, ◌+◌, ◌*◌, ◌<◌, ◌≡◌, ok}
use set_protocol_v2_contract.Common.Integer.{pos}
use set_protocol_v2_contract.External.Ethers.{BigNumber}
use set_protocol_v2_contract.Utils.UniswapUtils.SquareRoot.{newton_loop}

abbrev swap : Ordering → Ordering
swap Ordering.lt = Ordering.gt
swap Ordering.eq = Ordering.eq
swap Ordering.gt = Ordering.lt

module _ ⦃bn : BigNumber⦄ where
  -- It ends with a number that is not below the square root.
  abbrev Ends : ℕ → ℕ → ℕ → ℕ → Type 0
  Ends rounds v z x =
      (r : ℕ) × (newton_loop rounds (pos v) (pos z) (pos x) ≡ ok (some (pos r)))
      × (v < (r + 1) * (r + 1))
