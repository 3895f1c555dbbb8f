-- ===== src/Json/Operations/Kept.antt =====
-- What is written as JSON is read back, and what is read is valid.
use go_eth2_client.Prelude.{codes, ok, ◌≡◌, Gives, arith}
use go_eth2_client.Codec.Fields.{short_or_long}
use go_eth2_client.Codec.Fields.Laws.{
  IsSized, IsUint, Survives, read_array-Gives, read_array-format_hex, read_sized-Gives,
  read_sized-format_hex, read_uint-Gives, read_uint-format_uint, survives,
}
use go_eth2_client.Spec.Blocks.{DepositData, Eth1Data, SyncAggregate, Withdrawal}
use go_eth2_client.Json.Operations.{
  Eth1DataJson, marshal_eth1_data, unmarshal_eth1_data, DepositDataJson, marshal_deposit_data,
  unmarshal_deposit_data, DepositMessageJson, marshal_deposit_message, unmarshal_deposit_message,
  DepositMessage, WithdrawalJson, marshal_withdrawal, unmarshal_withdrawal, SyncAggregateJson,
  marshal_sync_aggregate, unmarshal_sync_aggregate, SyncCommitteeMessageJson,
  marshal_sync_committee_message, unmarshal_sync_committee_message, SyncCommitteeMessage,
}

abbrev pub IsEth1Data : Eth1Data → Type 0
IsEth1Data x = IsSized 32 x.deposit_root × IsUint x.deposit_count × IsSized 32 x.block_hash

unmarshal_eth1_data-Gives : (j : Eth1DataJson) → Gives IsEth1Data (unmarshal_eth1_data j)
unfolding unmarshal_eth1_data
unmarshal_eth1_data-Gives j = ground (
  arith,
  read_array-Gives 32 (codes "deposit root") j.deposit_root,
  read_uint-Gives (codes "deposit count") j.deposit_count,
  read_array-Gives 32 (codes "block hash") j.block_hash,
)

eth1_data_back : (x : Eth1Data) → IsEth1Data x → unmarshal_eth1_data (marshal_eth1_data x) ≡ ok x
unfolding marshal_eth1_data unmarshal_eth1_data
eth1_data_back x h = rw (
  read_array-format_hex 31 (codes "deposit root") x.deposit_root h.0,
  read_uint-format_uint (codes "deposit count") x.deposit_count h.1,
  read_array-format_hex 31 (codes "block hash") x.block_hash h.2,
)

abbrev pub IsDepositData : DepositData → Type 0
IsDepositData x =
    IsSized 48 x.public_key
    × IsSized 32 x.withdrawal_credentials
    × IsUint x.amount
    × IsSized 96 x.signature

unmarshal_deposit_data-Gives :
    (j : DepositDataJson) → Gives IsDepositData (unmarshal_deposit_data j)
unfolding unmarshal_deposit_data
unmarshal_deposit_data-Gives j = ground (
  arith,
  read_array-Gives 48 (codes "public key") j.public_key,
  read_array-Gives 32 (codes "withdrawal credentials") j.withdrawal_credentials,
  read_uint-Gives (codes "amount") j.amount,
  read_array-Gives 96 (codes "signature") j.signature,
)

deposit_data_back :
    (x : DepositData) → IsDepositData x → unmarshal_deposit_data (marshal_deposit_data x) ≡ ok x
unfolding marshal_deposit_data unmarshal_deposit_data
deposit_data_back x h = rw (
  read_array-format_hex 47 (codes "public key") x.public_key h.0,
  read_array-format_hex 31 (codes "withdrawal credentials") x.withdrawal_credentials h.1,
  read_uint-format_uint (codes "amount") x.amount h.2,
  read_array-format_hex 95 (codes "signature") x.signature h.3,
)

abbrev pub IsDepositMessage : DepositMessage → Type 0
IsDepositMessage x = IsSized 48 x.public_key × IsSized 32 x.withdrawal_credentials × IsUint x.amount

unmarshal_deposit_message-Gives :
    (j : DepositMessageJson) → Gives IsDepositMessage (unmarshal_deposit_message j)
unfolding unmarshal_deposit_message
unmarshal_deposit_message-Gives j = ground (
  arith,
  read_array-Gives 48 (codes "public key") j.public_key,
  read_array-Gives 32 (codes "withdrawal credentials") j.withdrawal_credentials,
  read_uint-Gives (codes "amount") j.amount,
)

deposit_message_back :
    (x : DepositMessage)
    → IsDepositMessage x
    → unmarshal_deposit_message (marshal_deposit_message x) ≡ ok x
unfolding marshal_deposit_message unmarshal_deposit_message
deposit_message_back x h = rw (
  read_array-format_hex 47 (codes "public key") x.public_key h.0,
  read_array-format_hex 31 (codes "withdrawal credentials") x.withdrawal_credentials h.1,
  read_uint-format_uint (codes "amount") x.amount h.2,
)

abbrev pub IsWithdrawal : Withdrawal → Type 0
IsWithdrawal x = IsUint x.index × IsUint x.validator_index × IsSized 20 x.address × IsUint x.amount

unmarshal_withdrawal-Gives : (j : WithdrawalJson) → Gives IsWithdrawal (unmarshal_withdrawal j)
unfolding unmarshal_withdrawal
unmarshal_withdrawal-Gives j = ground (
  arith,
  read_uint-Gives (codes "index") j.index,
  read_uint-Gives (codes "validator index") j.validator_index,
  read_array-Gives 20 (codes "address") j.address,
  read_uint-Gives (codes "amount") j.amount,
)

withdrawal_back :
    (x : Withdrawal) → IsWithdrawal x → unmarshal_withdrawal (marshal_withdrawal x) ≡ ok x
unfolding marshal_withdrawal unmarshal_withdrawal
withdrawal_back x h = rw (
  read_uint-format_uint (codes "index") x.index h.0,
  read_uint-format_uint (codes "validator index") x.validator_index h.1,
  read_array-format_hex 19 (codes "address") x.address h.2,
  read_uint-format_uint (codes "amount") x.amount h.3,
)

abbrev pub IsSyncAggregate : SyncAggregate → Type 0
IsSyncAggregate x = IsSized 64 x.sync_committee_bits × IsSized 96 x.sync_committee_signature

unmarshal_sync_aggregate-Gives :
    (j : SyncAggregateJson) → Gives IsSyncAggregate (unmarshal_sync_aggregate j)
unfolding unmarshal_sync_aggregate
unmarshal_sync_aggregate-Gives j = ground (
  arith,
  read_sized-Gives 64
      (short_or_long 64 (codes "sync committee bits too short")
        (codes "sync committee bits too long"))
      (codes "sync committee bits") j.sync_committee_bits,
  read_sized-Gives 96
      (short_or_long 96 (codes "sync committee signature short")
        (codes "sync committee signature long"))
      (codes "sync committee signature") j.sync_committee_signature,
)

sync_aggregate_back :
    (x : SyncAggregate)
    → IsSyncAggregate x
    → unmarshal_sync_aggregate (marshal_sync_aggregate x) ≡ ok x
unfolding marshal_sync_aggregate unmarshal_sync_aggregate
sync_aggregate_back x h = rw (
  read_sized-format_hex 63
      (short_or_long 64 (codes "sync committee bits too short")
        (codes "sync committee bits too long"))
      (codes "sync committee bits") x.sync_committee_bits h.0,
  read_sized-format_hex 95
      (short_or_long 96 (codes "sync committee signature short")
        (codes "sync committee signature long"))
      (codes "sync committee signature") x.sync_committee_signature h.1,
)

abbrev pub IsSyncCommitteeMessage : SyncCommitteeMessage → Type 0
IsSyncCommitteeMessage x =
    IsUint x.slot
    × IsSized 32 x.beacon_block_root
    × IsUint x.validator_index
    × IsSized 96 x.signature

unmarshal_sync_committee_message-Gives :
    (j : SyncCommitteeMessageJson)
    → Gives IsSyncCommitteeMessage (unmarshal_sync_committee_message j)
unfolding unmarshal_sync_committee_message
unmarshal_sync_committee_message-Gives j = ground (
  arith,
  read_uint-Gives (codes "slot") j.slot,
  read_array-Gives 32 (codes "beacon block root") j.beacon_block_root,
  read_uint-Gives (codes "validator index") j.validator_index,
  read_array-Gives 96 (codes "signature") j.signature,
)

sync_committee_message_back :
    (x : SyncCommitteeMessage)
    → IsSyncCommitteeMessage x
    → unmarshal_sync_committee_message (marshal_sync_committee_message x) ≡ ok x
unfolding marshal_sync_committee_message unmarshal_sync_committee_message
sync_committee_message_back x h = rw (
  read_uint-format_uint (codes "slot") x.slot h.0,
  read_array-format_hex 31 (codes "beacon block root") x.beacon_block_root h.1,
  read_uint-format_uint (codes "validator index") x.validator_index h.2,
  read_array-format_hex 95 (codes "signature") x.signature h.3,
)

-- A value of Eth1 data, deposit data, a deposit message, a withdrawal, a sync aggregate or a sync
-- committee message is valid exactly if it is read back from what it is written as in JSON. It is
-- valid exactly if it is read from something.
pub operations_survive :
    (x0 : Eth1Data) (x1 : DepositData) (x2 : DepositMessage) (x3 : Withdrawal) (x4 : SyncAggregate)
    (x5 : SyncCommitteeMessage)
    → Survives marshal_eth1_data unmarshal_eth1_data IsEth1Data x0
      × Survives marshal_deposit_data unmarshal_deposit_data IsDepositData x1
      × Survives marshal_deposit_message unmarshal_deposit_message IsDepositMessage x2
      × Survives marshal_withdrawal unmarshal_withdrawal IsWithdrawal x3
      × Survives marshal_sync_aggregate unmarshal_sync_aggregate IsSyncAggregate x4
      × Survives marshal_sync_committee_message unmarshal_sync_committee_message
          IsSyncCommitteeMessage x5
operations_survive x0 x1 x2 x3 x4 x5 = (
  survives marshal_eth1_data unmarshal_eth1_data IsEth1Data unmarshal_eth1_data-Gives eth1_data_back
      x0,
  survives marshal_deposit_data unmarshal_deposit_data IsDepositData unmarshal_deposit_data-Gives
      deposit_data_back x1,
  survives marshal_deposit_message unmarshal_deposit_message IsDepositMessage
      unmarshal_deposit_message-Gives deposit_message_back x2,
  survives marshal_withdrawal unmarshal_withdrawal IsWithdrawal unmarshal_withdrawal-Gives
      withdrawal_back x3,
  survives marshal_sync_aggregate unmarshal_sync_aggregate IsSyncAggregate
      unmarshal_sync_aggregate-Gives sync_aggregate_back x4,
  survives marshal_sync_committee_message unmarshal_sync_committee_message IsSyncCommitteeMessage
      unmarshal_sync_committee_message-Gives sync_committee_message_back x5,
)
