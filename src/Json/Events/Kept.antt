-- ===== src/Json/Events/Kept.antt =====
-- What is written as JSON is read back, and what is read is valid.
use go_eth2_client.Prelude.{codes, ok, ◌≡◌, Gives, arith}
use go_eth2_client.Codec.Fields.Laws.{
  IsSized, IsUint, read_array_of-Gives, read_array_of-format_hex, read_uint-Gives,
  read_uint-format_uint,
}
use go_eth2_client.Json.Events.{
  BlockEventJson, marshal_block_event, unmarshal_block_event, BlockEvent, ChainReorgEventJson,
  marshal_chain_reorg_event, unmarshal_chain_reorg_event, ChainReorgEvent,
  FinalizedCheckpointEventJson, marshal_finalized_checkpoint_event,
  unmarshal_finalized_checkpoint_event, FinalizedCheckpointEvent,
}

abbrev pub IsBlockEvent : BlockEvent → Type 0
IsBlockEvent x = IsUint x.slot × IsSized 32 x.block

pub unmarshal_block_event-Gives :
    (j : BlockEventJson) → Gives IsBlockEvent (unmarshal_block_event j)
unfolding unmarshal_block_event
unmarshal_block_event-Gives j =
    ground
      (arith, read_uint-Gives (codes "slot") j.slot, read_array_of-Gives 32 (codes "block") j.block)

pub block_event_back :
    (x : BlockEvent) → IsBlockEvent x → unmarshal_block_event (marshal_block_event x) ≡ ok x
unfolding marshal_block_event unmarshal_block_event
block_event_back x h = rw (
  read_uint-format_uint (codes "slot") x.slot h.0,
  read_array_of-format_hex 31 (codes "block") x.block h.1,
)

abbrev pub IsChainReorgEvent : ChainReorgEvent → Type 0
IsChainReorgEvent x =
    IsUint x.slot
    × IsUint x.depth
    × IsSized 32 x.old_head_block
    × IsSized 32 x.new_head_block
    × IsSized 32 x.old_head_state
    × IsSized 32 x.new_head_state
    × IsUint x.epoch

pub unmarshal_chain_reorg_event-Gives :
    (j : ChainReorgEventJson) → Gives IsChainReorgEvent (unmarshal_chain_reorg_event j)
unfolding unmarshal_chain_reorg_event
unmarshal_chain_reorg_event-Gives j = ground (
  arith,
  read_uint-Gives (codes "slot") j.slot,
  read_uint-Gives (codes "depth") j.depth,
  read_array_of-Gives 32 (codes "old head block") j.old_head_block,
  read_array_of-Gives 32 (codes "new head block") j.new_head_block,
  read_array_of-Gives 32 (codes "old head state") j.old_head_state,
  read_array_of-Gives 32 (codes "new head state") j.new_head_state,
  read_uint-Gives (codes "epoch") j.epoch,
)

pub chain_reorg_event_back :
    (x : ChainReorgEvent)
    → IsChainReorgEvent x
    → unmarshal_chain_reorg_event (marshal_chain_reorg_event x) ≡ ok x
unfolding marshal_chain_reorg_event unmarshal_chain_reorg_event
chain_reorg_event_back x h = rw (
  read_uint-format_uint (codes "slot") x.slot h.0,
  read_uint-format_uint (codes "depth") x.depth h.1,
  read_array_of-format_hex 31 (codes "old head block") x.old_head_block h.2,
  read_array_of-format_hex 31 (codes "new head block") x.new_head_block h.3,
  read_array_of-format_hex 31 (codes "old head state") x.old_head_state h.4,
  read_array_of-format_hex 31 (codes "new head state") x.new_head_state h.5,
  read_uint-format_uint (codes "epoch") x.epoch h.6,
)

abbrev pub IsFinalizedCheckpointEvent : FinalizedCheckpointEvent → Type 0
IsFinalizedCheckpointEvent x = IsSized 32 x.block × IsSized 32 x.state × IsUint x.epoch

pub unmarshal_finalized_checkpoint_event-Gives :
    (j : FinalizedCheckpointEventJson)
    → Gives IsFinalizedCheckpointEvent (unmarshal_finalized_checkpoint_event j)
unfolding unmarshal_finalized_checkpoint_event
unmarshal_finalized_checkpoint_event-Gives j = ground (
  arith,
  read_array_of-Gives 32 (codes "block") j.block,
  read_array_of-Gives 32 (codes "state") j.state,
  read_uint-Gives (codes "epoch") j.epoch,
)

pub finalized_checkpoint_event_back :
    (x : FinalizedCheckpointEvent)
    → IsFinalizedCheckpointEvent x
    → unmarshal_finalized_checkpoint_event (marshal_finalized_checkpoint_event x) ≡ ok x
unfolding marshal_finalized_checkpoint_event unmarshal_finalized_checkpoint_event
finalized_checkpoint_event_back x h = rw (
  read_array_of-format_hex 31 (codes "block") x.block h.0,
  read_array_of-format_hex 31 (codes "state") x.state h.1,
  read_uint-format_uint (codes "epoch") x.epoch h.2,
)
