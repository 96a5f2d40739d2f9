-- ===== src/Utils/BlockchainUtils.antt =====
-- utils/common/blockchainUtils.ts: the requests that drive the test chain. The read of a whole block
-- is left out.
use set_protocol_v2_contract.Common.{ℕ, zero, suc, String, [], ◌∷◌}
use set_protocol_v2_contract.Common.Integer.{pos}
use set_protocol_v2_contract.Utils.Network.{
  Network, Argument, Async, ◌>>=◌, ◌>>◌, pure, call_node, number, text,
}

-- The ID is the number 0 before the first snapshot, and the node's answer after.
pub record Blockchain : Type 0 where
  pub snapshot_id : Argument

abbrev pub new_blockchain : Blockchain
new_blockchain = record { snapshot_id = number (pos 0) }

module _ ⦃net : Network⦄ where
  unfoldable pub save_snapshot_async : Blockchain → Async (String × Blockchain)
  save_snapshot_async chain = do
    response ← call_node "evm_snapshot" []
    pure (response, record chain { snapshot_id = text response })

  unfoldable pub revert_async : Blockchain → Async (Unit {0})
  revert_async chain = do call_node "evm_revert" (chain.snapshot_id ∷ []); pure tt

  unfoldable pub revert_by_id_async : String → Async (Unit {0})
  revert_by_id_async id = do call_node "evm_revert" (text id ∷ []); pure tt

  unfoldable pub reset_async : Async (Unit {0})
  reset_async = do call_node "evm_revert" (text "0x1" ∷ []); pure tt

  unfoldable pub increase_time_async : ℕ → Async (Unit {0})
  increase_time_async duration = do
    call_node "evm_increaseTime" (number (pos duration) ∷ [])
    pure tt

  unfoldable pub set_next_block_timestamp : ℕ → Async (Unit {0})
  set_next_block_timestamp timestamp = do
    call_node "evm_setNextBlockTimestamp" (number (pos timestamp) ∷ [])
    pure tt

  unfoldable pub wait_blocks_async : ℕ → Async (Unit {0})
  wait_blocks_async zero = pure tt
  wait_blocks_async (suc count) = do call_node "evm_mine" []; wait_blocks_async count
