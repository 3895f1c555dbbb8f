-- ===== src/Json/PayloadHeader.antt =====
-- The JSON of the header of an execution payload: spec/bellatrix/executionpayloadheader.go and
-- spec/capella/executionpayloadheader.go.
pub mod Kept
pub mod Tests
use go_eth2_client.Prelude.{Text, codes, ok, Ending, returns}
use go_eth2_client.Codec.Decimal.{format_uint}
use go_eth2_client.Codec.Hex.{format_hex}
use go_eth2_client.Codec.Payload.{
  format_extra_data, read_header_extra_data, format_base_fee, read_base_fee,
}
use go_eth2_client.Codec.Fields.{read_array, read_uint}
use go_eth2_client.Codec.Panics.{◌>>=◌}
use go_eth2_client.Api.Blinded.{ExecutionPayloadHeader, CapellaHeader}

pub record ExecutionPayloadHeaderJson : Type 0 where
  pub parent_hash : Text
  pub fee_recipient : Text
  pub state_root : Text
  pub receipts_root : Text
  pub logs_bloom : Text
  pub prev_randao : Text
  pub block_number : Text
  pub gas_limit : Text
  pub gas_used : Text
  pub timestamp : Text
  pub extra_data : Text
  pub base_fee_per_gas : Text
  pub block_hash : Text
  pub transactions_root : Text

unfoldable pub marshal_execution_payload_header :
    ExecutionPayloadHeader → ExecutionPayloadHeaderJson
unfolding format_extra_data format_base_fee
marshal_execution_payload_header x = record {
  parent_hash = format_hex x.parent_hash;
  fee_recipient = format_hex x.fee_recipient;
  state_root = format_hex x.state_root;
  receipts_root = format_hex x.receipts_root;
  logs_bloom = format_hex x.logs_bloom;
  prev_randao = format_hex x.prev_randao;
  block_number = format_uint x.block_number;
  gas_limit = format_uint x.gas_limit;
  gas_used = format_uint x.gas_used;
  timestamp = format_uint x.timestamp;
  extra_data = format_extra_data x.extra_data;
  base_fee_per_gas = format_base_fee x.base_fee_per_gas;
  block_hash = format_hex x.block_hash;
  transactions_root = format_hex x.transactions_root;
}

unfoldable pub unmarshal_execution_payload_header :
    ExecutionPayloadHeaderJson → Ending ExecutionPayloadHeader
unfolding read_header_extra_data read_base_fee
unmarshal_execution_payload_header j = do
  parent_hash ← returns (read_array 32 (codes "parent hash") j.parent_hash)
  fee_recipient ← returns (read_array 20 (codes "fee recipient") j.fee_recipient)
  state_root ← returns (read_array 32 (codes "state root") j.state_root)
  receipts_root ← returns (read_array 32 (codes "receipts root") j.receipts_root)
  logs_bloom ← returns (read_array 256 (codes "logs bloom") j.logs_bloom)
  prev_randao ← returns (read_array 32 (codes "prev randao") j.prev_randao)
  block_number ← returns (read_uint (codes "block number") j.block_number)
  gas_limit ← returns (read_uint (codes "gas limit") j.gas_limit)
  gas_used ← returns (read_uint (codes "gas used") j.gas_used)
  timestamp ← returns (read_uint (codes "timestamp") j.timestamp)
  extra_data ← returns (read_header_extra_data j.extra_data)
  base_fee_per_gas ← read_base_fee j.base_fee_per_gas
  block_hash ← returns (read_array 32 (codes "block hash") j.block_hash)
  transactions_root ← returns (read_array 32 (codes "transactions root") j.transactions_root)
  returns (
      ok (record {
        parent_hash = parent_hash;
        fee_recipient = fee_recipient;
        state_root = state_root;
        receipts_root = receipts_root;
        logs_bloom = logs_bloom;
        prev_randao = prev_randao;
        block_number = block_number;
        gas_limit = gas_limit;
        gas_used = gas_used;
        timestamp = timestamp;
        extra_data = extra_data;
        base_fee_per_gas = base_fee_per_gas;
        block_hash = block_hash;
        transactions_root = transactions_root;
      }))

pub record CapellaHeaderJson : Type 0 where
  pub common : ExecutionPayloadHeaderJson
  pub withdrawals_root : Text

unfoldable pub marshal_capella_header : CapellaHeader → CapellaHeaderJson
marshal_capella_header x = record {
  common = marshal_execution_payload_header x.common;
  withdrawals_root = format_hex x.withdrawals_root;
}

unfoldable pub unmarshal_capella_header : CapellaHeaderJson → Ending CapellaHeader
unmarshal_capella_header j = do
  common ← unmarshal_execution_payload_header j.common
  withdrawals_root ← returns (read_array 32 (codes "withdrawals root") j.withdrawals_root)
  returns (ok (record { common = common; withdrawals_root = withdrawals_root }))
