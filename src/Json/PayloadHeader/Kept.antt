-- ===== src/Json/PayloadHeader/Kept.antt =====
-- The header of an execution payload that is written as JSON is read back.
use go_eth2_client.Prelude.{codes, ok, returns, ◌≡◌, ◌↔◌, arith}
use go_eth2_client.Codec.Fields.Laws.{
  IsSized, IsUint, read_array-Gives, read_array-format_hex, read_uint-Gives, read_uint-format_uint,
}
use go_eth2_client.Codec.Panics.{GivesAtEnd, GivesAtEnd-ok}
use go_eth2_client.Codec.Payload.Laws.{
  IsExtraData, read_header_extra_data-Gives, read_header_extra_data-format_extra_data,
  read_base_fee-Gives, read_base_fee-format_base_fee,
}
use go_eth2_client.Api.Blinded.{ExecutionPayloadHeader, CapellaHeader}
use go_eth2_client.Json.PayloadHeader.{
  ExecutionPayloadHeaderJson, marshal_execution_payload_header, unmarshal_execution_payload_header,
  CapellaHeaderJson, marshal_capella_header, unmarshal_capella_header,
}

abbrev pub IsExecutionPayloadHeader : ExecutionPayloadHeader → Type 0
IsExecutionPayloadHeader x =
    IsSized 32 x.parent_hash
    × IsSized 20 x.fee_recipient
    × IsSized 32 x.state_root
    × IsSized 32 x.receipts_root
    × IsSized 256 x.logs_bloom
    × IsSized 32 x.prev_randao
    × IsUint x.block_number
    × IsUint x.gas_limit
    × IsUint x.gas_used
    × IsUint x.timestamp
    × IsExtraData x.extra_data
    × IsSized 32 x.base_fee_per_gas
    × IsSized 32 x.block_hash
    × IsSized 32 x.transactions_root

abbrev pub IsCapellaHeader : CapellaHeader → Type 0
IsCapellaHeader x = IsExecutionPayloadHeader x.common × IsSized 32 x.withdrawals_root

unmarshal_execution_payload_header-Gives :
    (j : ExecutionPayloadHeaderJson)
    → GivesAtEnd IsExecutionPayloadHeader (unmarshal_execution_payload_header j)
unfolding unmarshal_execution_payload_header
unmarshal_execution_payload_header-Gives j = ground (
  arith,
  read_array-Gives 32 (codes "parent hash") j.parent_hash,
  read_array-Gives 20 (codes "fee recipient") j.fee_recipient,
  read_array-Gives 32 (codes "state root") j.state_root,
  read_array-Gives 32 (codes "receipts root") j.receipts_root,
  read_array-Gives 256 (codes "logs bloom") j.logs_bloom,
  read_array-Gives 32 (codes "prev randao") j.prev_randao,
  read_uint-Gives (codes "block number") j.block_number,
  read_uint-Gives (codes "gas limit") j.gas_limit,
  read_uint-Gives (codes "gas used") j.gas_used,
  read_uint-Gives (codes "timestamp") j.timestamp,
  read_header_extra_data-Gives j.extra_data,
  read_base_fee-Gives j.base_fee_per_gas,
  read_array-Gives 32 (codes "block hash") j.block_hash,
  read_array-Gives 32 (codes "transactions root") j.transactions_root,
)

execution_payload_header_back :
    (x : ExecutionPayloadHeader)
    → IsExecutionPayloadHeader x
    → unmarshal_execution_payload_header (marshal_execution_payload_header x) ≡ returns (ok x)
unfolding marshal_execution_payload_header unmarshal_execution_payload_header
execution_payload_header_back x h = rw (
  read_array-format_hex 31 (codes "parent hash") x.parent_hash h.0,
  read_array-format_hex 19 (codes "fee recipient") x.fee_recipient h.1,
  read_array-format_hex 31 (codes "state root") x.state_root h.2,
  read_array-format_hex 31 (codes "receipts root") x.receipts_root h.3,
  read_array-format_hex 255 (codes "logs bloom") x.logs_bloom h.4,
  read_array-format_hex 31 (codes "prev randao") x.prev_randao h.5,
  read_uint-format_uint (codes "block number") x.block_number h.6,
  read_uint-format_uint (codes "gas limit") x.gas_limit h.7,
  read_uint-format_uint (codes "gas used") x.gas_used h.8,
  read_uint-format_uint (codes "timestamp") x.timestamp h.9,
  read_header_extra_data-format_extra_data x.extra_data h.10,
  read_base_fee-format_base_fee x.base_fee_per_gas h.11,
  read_array-format_hex 31 (codes "block hash") x.block_hash h.12,
  read_array-format_hex 31 (codes "transactions root") x.transactions_root h.13,
)

unmarshal_capella_header-Gives :
    (j : CapellaHeaderJson) → GivesAtEnd IsCapellaHeader (unmarshal_capella_header j)
unfolding unmarshal_capella_header
unmarshal_capella_header-Gives j = ground (
  arith,
  unmarshal_execution_payload_header-Gives j.common,
  read_array-Gives 32 (codes "withdrawals root") j.withdrawals_root,
)

capella_header_back :
    (y : CapellaHeader)
    → IsCapellaHeader y
    → unmarshal_capella_header (marshal_capella_header y) ≡ returns (ok y)
unfolding marshal_capella_header unmarshal_capella_header
capella_header_back y h = rw (
  execution_payload_header_back y.common h.0,
  read_array-format_hex 31 (codes "withdrawals root") y.withdrawals_root h.1,
)

-- x
pub payload_headers_survive :
    (x : ExecutionPayloadHeader) (y : CapellaHeader) (j : ExecutionPayloadHeaderJson)
    (k : CapellaHeaderJson)
    → (IsExecutionPayloadHeader x ↔ (
        unmarshal_execution_payload_header (marshal_execution_payload_header x) ≡ returns (ok x)))
      × (IsCapellaHeader y ↔ (unmarshal_capella_header (marshal_capella_header y) ≡ returns (ok y)))
      × GivesAtEnd IsExecutionPayloadHeader (unmarshal_execution_payload_header j)
      × GivesAtEnd IsCapellaHeader (unmarshal_capella_header k)
payload_headers_survive x y j k =
    let a = marshal_execution_payload_header x in
    let b = marshal_capella_header y in
    (
      (
        execution_payload_header_back x,
        GivesAtEnd-ok IsExecutionPayloadHeader (unmarshal_execution_payload_header a)
            (unmarshal_execution_payload_header-Gives a),
      ),
      (
        capella_header_back y,
        GivesAtEnd-ok IsCapellaHeader (unmarshal_capella_header b)
            (unmarshal_capella_header-Gives b),
      ),
      unmarshal_execution_payload_header-Gives j,
      unmarshal_capella_header-Gives k,
    )
