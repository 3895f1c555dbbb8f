-- ===== src/Json/Events.antt =====
-- The JSON of the data of events: api/v1/blockevent.go and its likes.
pub mod Kept
use go_eth2_client.Prelude.{Bool, Epoch, Root, Slot, codes, ℕ, Text, Result, ok, err, ◌>>=◌}
use go_eth2_client.Codec.Decimal.{format_uint}
use go_eth2_client.Codec.Hex.{format_hex}
use go_eth2_client.Codec.Fields.{read_array_of, read_uint}

pub record BlockEvent : Type 0 where
  pub slot : Slot
  pub block : Root
  pub execution_optimistic : Bool

pub record BlockEventJson : Type 0 where
  pub slot : Text
  pub block : Text
  pub execution_optimistic : Bool

unfoldable pub marshal_block_event : BlockEvent → BlockEventJson
marshal_block_event x = record {
  slot = format_uint x.slot;
  block = format_hex x.block;
  execution_optimistic = x.execution_optimistic;
}

unfoldable pub unmarshal_block_event : BlockEventJson → Result BlockEvent
unmarshal_block_event j = do
  slot ← read_uint (codes "slot") j.slot
  block ← read_array_of 32 (codes "block") j.block
  ok (record { slot = slot; block = block; execution_optimistic = j.execution_optimistic })

pub record ChainReorgEvent : Type 0 where
  pub slot : Slot
  pub depth : ℕ
  pub old_head_block : Root
  pub new_head_block : Root
  pub old_head_state : Root
  pub new_head_state : Root
  pub epoch : Epoch

pub record ChainReorgEventJson : Type 0 where
  pub slot : Text
  pub depth : Text
  pub old_head_block : Text
  pub new_head_block : Text
  pub old_head_state : Text
  pub new_head_state : Text
  pub epoch : Text

unfoldable pub marshal_chain_reorg_event : ChainReorgEvent → ChainReorgEventJson
marshal_chain_reorg_event x = record {
  slot = format_uint x.slot;
  depth = format_uint x.depth;
  old_head_block = format_hex x.old_head_block;
  new_head_block = format_hex x.new_head_block;
  old_head_state = format_hex x.old_head_state;
  new_head_state = format_hex x.new_head_state;
  epoch = format_uint x.epoch;
}

unfoldable pub unmarshal_chain_reorg_event : ChainReorgEventJson → Result ChainReorgEvent
unmarshal_chain_reorg_event j = do
  slot ← read_uint (codes "slot") j.slot
  depth ← read_uint (codes "depth") j.depth
  old_head_block ← read_array_of 32 (codes "old head block") j.old_head_block
  new_head_block ← read_array_of 32 (codes "new head block") j.new_head_block
  old_head_state ← read_array_of 32 (codes "old head state") j.old_head_state
  new_head_state ← read_array_of 32 (codes "new head state") j.new_head_state
  epoch ← read_uint (codes "epoch") j.epoch
  ok (record {
    slot = slot;
    depth = depth;
    old_head_block = old_head_block;
    new_head_block = new_head_block;
    old_head_state = old_head_state;
    new_head_state = new_head_state;
    epoch = epoch;
  })

pub record FinalizedCheckpointEvent : Type 0 where
  pub block : Root
  pub state : Root
  pub epoch : Epoch

pub record FinalizedCheckpointEventJson : Type 0 where
  pub block : Text
  pub state : Text
  pub epoch : Text

unfoldable pub marshal_finalized_checkpoint_event :
    FinalizedCheckpointEvent → FinalizedCheckpointEventJson
marshal_finalized_checkpoint_event x = record {
  block = format_hex x.block;
  state = format_hex x.state;
  epoch = format_uint x.epoch;
}

unfoldable pub unmarshal_finalized_checkpoint_event :
    FinalizedCheckpointEventJson → Result FinalizedCheckpointEvent
unmarshal_finalized_checkpoint_event j = do
  block ← read_array_of 32 (codes "block") j.block
  state ← read_array_of 32 (codes "state") j.state
  epoch ← read_uint (codes "epoch") j.epoch
  ok (record { block = block; state = state; epoch = epoch })
