-- ===== src/Json/Payload/Kept.antt =====
-- An execution payload that is written as JSON is read back, if it is valid and no transaction is empty.
use go_eth2_client.Prelude.{codes, ok, returns, Option, none, some, List, All, ◌≡◌, ◌↔◌, arith}
use go_eth2_client.Codec.Fields.Laws.{
  IsSized, IsUint, read_array-Gives, read_array-format_hex, read_uint-Gives, read_uint-format_uint,
}
use go_eth2_client.Codec.Hex.RoundTrip.{IsBytes}
use go_eth2_client.Codec.Panics.{◌>>=◌, GivesAtEnd, GivesAtEnd-ok, GivesAtEnd-bind}
use go_eth2_client.Codec.Payload.Laws.{
  IsExtraData, IsNotEmpty, read_extra_data-Gives, read_extra_data-format_extra_data,
  read_base_fee-Gives, read_base_fee-format_base_fee, read_transactions-Gives,
  read_transactions-map, read_transactions_lost,
}
use go_eth2_client.Spec.Blocks.{ExecutionPayload, CapellaPayload, Withdrawal}
use go_eth2_client.Json.Payload.{
  ExecutionPayloadJson, marshal_execution_payload, unmarshal_execution_payload, CapellaPayloadJson,
  marshal_capella_payload, unmarshal_capella_payload, read_withdrawals,
}

abbrev pub IsExecutionPayload : ExecutionPayload → Type 0
IsExecutionPayload x =
    IsSized 32 x.parent_hash
    × IsSized 20 x.fee_recipient
    × IsSized 32 x.state_root
    × IsSized 32 x.receipts_root
    × IsSized 256 x.logs_bloom
    × IsSized 32 x.prev_randao
    × IsUint x.block_number
    × IsUint x.gas_limit
    × IsUint x.gas_used
    × IsUint x.timestamp
    × IsExtraData x.extra_data
    × IsSized 32 x.base_fee_per_gas
    × IsSized 32 x.block_hash
    × All IsBytes x.transactions

unmarshal_execution_payload-Gives :
    (j : ExecutionPayloadJson) → GivesAtEnd IsExecutionPayload (unmarshal_execution_payload j)
unfolding unmarshal_execution_payload
unmarshal_execution_payload-Gives j = ground (
  arith,
  read_array-Gives 32 (codes "parent hash") j.parent_hash,
  read_array-Gives 20 (codes "fee recipient") j.fee_recipient,
  read_array-Gives 32 (codes "state root") j.state_root,
  read_array-Gives 32 (codes "receipts root") j.receipts_root,
  read_array-Gives 256 (codes "logs bloom") j.logs_bloom,
  read_array-Gives 32 (codes "prev randao") j.prev_randao,
  read_uint-Gives (codes "block number") j.block_number,
  read_uint-Gives (codes "gas limit") j.gas_limit,
  read_uint-Gives (codes "gas used") j.gas_used,
  read_uint-Gives (codes "timestamp") j.timestamp,
  read_extra_data-Gives j.extra_data,
  read_base_fee-Gives j.base_fee_per_gas,
  read_array-Gives 32 (codes "block hash") j.block_hash,
  read_transactions-Gives j.transactions,
)

execution_payload_back :
    (x : ExecutionPayload)
    → IsExecutionPayload x
    → All IsNotEmpty x.transactions
    → unmarshal_execution_payload (marshal_execution_payload x) ≡ returns (ok x)
unfolding marshal_execution_payload unmarshal_execution_payload
execution_payload_back x h k = rw (
  read_array-format_hex 31 (codes "parent hash") x.parent_hash h.0,
  read_array-format_hex 19 (codes "fee recipient") x.fee_recipient h.1,
  read_array-format_hex 31 (codes "state root") x.state_root h.2,
  read_array-format_hex 31 (codes "receipts root") x.receipts_root h.3,
  read_array-format_hex 255 (codes "logs bloom") x.logs_bloom h.4,
  read_array-format_hex 31 (codes "prev randao") x.prev_randao h.5,
  read_uint-format_uint (codes "block number") x.block_number h.6,
  read_uint-format_uint (codes "gas limit") x.gas_limit h.7,
  read_uint-format_uint (codes "gas used") x.gas_used h.8,
  read_uint-format_uint (codes "timestamp") x.timestamp h.9,
  read_extra_data-format_extra_data x.extra_data h.10,
  read_base_fee-format_base_fee x.base_fee_per_gas h.11,
  read_array-format_hex 31 (codes "block hash") x.block_hash h.12,
  read_transactions-map x.transactions h.13 k,
)

execution_payload_lost :
    (x : ExecutionPayload)
    → GivesAtEnd
        (λ y. All IsNotEmpty x.transactions)
        (unmarshal_execution_payload (marshal_execution_payload x))
unfolding marshal_execution_payload unmarshal_execution_payload
execution_payload_lost x = ground (arith, read_transactions_lost x.transactions)

read_withdrawals_kept :
    (P : ExecutionPayload → Type 0) (x : ExecutionPayload) (ws : Option (List (Option Withdrawal)))
    → P x
    → GivesAtEnd
        (λ (y : CapellaPayload). P y.payload)
        (returns (read_withdrawals ws) >>= λ w.
          returns (ok (record { payload = x; withdrawals = w })))
read_withdrawals_kept P x none h = tt
read_withdrawals_kept P x (some ws) h = h

capella_payload-GivesAtEnd :
    (P : ExecutionPayload → Type 0) (j : CapellaPayloadJson)
    → GivesAtEnd P (unmarshal_execution_payload j.payload)
    → GivesAtEnd (λ (y : CapellaPayload). P y.payload) (unmarshal_capella_payload j)
unfolding unmarshal_capella_payload
capella_payload-GivesAtEnd P j g =
    GivesAtEnd-bind (λ (y : CapellaPayload). P y.payload) P (unmarshal_execution_payload j.payload)
      _ g (λ x h. read_withdrawals_kept P x j.withdrawals h)

capella_payload_back :
    (y : CapellaPayload)
    → IsExecutionPayload y.payload
    → All IsNotEmpty y.payload.transactions
    → unmarshal_capella_payload (marshal_capella_payload y) ≡ returns (ok y)
unfolding marshal_capella_payload unmarshal_capella_payload
capella_payload_back y h k = rw (execution_payload_back y.payload h k)

-- x
pub payloads_survive :
    (x : ExecutionPayload) (y : CapellaPayload) (j : ExecutionPayloadJson) (k : CapellaPayloadJson)
    → ((IsExecutionPayload x × All IsNotEmpty x.transactions)
        ↔ (unmarshal_execution_payload (marshal_execution_payload x) ≡ returns (ok x)))
      × ((IsExecutionPayload y.payload × All IsNotEmpty y.payload.transactions)
          ↔ (unmarshal_capella_payload (marshal_capella_payload y) ≡ returns (ok y)))
      × GivesAtEnd IsExecutionPayload (unmarshal_execution_payload j)
      × GivesAtEnd
          (λ (z : CapellaPayload). IsExecutionPayload z.payload)
          (unmarshal_capella_payload k)
unfolding marshal_capella_payload
payloads_survive x y j k =
    let a = marshal_execution_payload x in
    let b = marshal_capella_payload y in
    (
      (
        λ h. execution_payload_back x h.0 h.1,
        λ e. (
          GivesAtEnd-ok IsExecutionPayload (unmarshal_execution_payload a)
              (unmarshal_execution_payload-Gives a) e,
          GivesAtEnd-ok (λ z. All IsNotEmpty x.transactions) (unmarshal_execution_payload a)
              (execution_payload_lost x) e,
        ),
      ),
      (
        λ h. capella_payload_back y h.0 h.1,
        λ e. (
          GivesAtEnd-ok (λ (z : CapellaPayload). IsExecutionPayload z.payload)
              (unmarshal_capella_payload b)
              (capella_payload-GivesAtEnd IsExecutionPayload b
                (unmarshal_execution_payload-Gives b.payload))
              e,
          GivesAtEnd-ok (λ (z : CapellaPayload). All IsNotEmpty y.payload.transactions)
              (unmarshal_capella_payload b)
              (capella_payload-GivesAtEnd
                (λ (z : ExecutionPayload). All IsNotEmpty y.payload.transactions) b
                (execution_payload_lost y.payload))
              e,
        ),
      ),
      unmarshal_execution_payload-Gives j,
      capella_payload-GivesAtEnd IsExecutionPayload k (unmarshal_execution_payload-Gives k.payload),
    )
