-- ===== src/Json/Operations.antt =====
-- The JSON of deposits, withdrawals and sync committees: spec/phase0/depositdata.go,
-- spec/altair/syncaggregate.go and their likes.
pub mod Kept
use go_eth2_client.Prelude.{
  BlsPubKey, BlsSignature, Bytes, Gwei, Option, Root, Slot, ValidatorIndex, codes, Text, Result, ok,
  err, ◌>>=◌,
}
use go_eth2_client.Codec.Decimal.{format_uint}
use go_eth2_client.Codec.Hex.{format_hex}
use go_eth2_client.Codec.Fields.{need, read_array, read_sized, read_uint, short_or_long}
use go_eth2_client.Json.Bits.{SyncCommitteeContribution}
use go_eth2_client.Spec.Blocks.{DepositData, Eth1Data, SyncAggregate, Withdrawal}

pub record Eth1DataJson : Type 0 where
  pub deposit_root : Text
  pub deposit_count : Text
  pub block_hash : Text

unfoldable pub marshal_eth1_data : Eth1Data → Eth1DataJson
marshal_eth1_data x = record {
  deposit_root = format_hex x.deposit_root;
  deposit_count = format_uint x.deposit_count;
  block_hash = format_hex x.block_hash;
}

unfoldable pub unmarshal_eth1_data : Eth1DataJson → Result Eth1Data
unmarshal_eth1_data j = do
  deposit_root ← read_array 32 (codes "deposit root") j.deposit_root
  deposit_count ← read_uint (codes "deposit count") j.deposit_count
  block_hash ← read_array 32 (codes "block hash") j.block_hash
  ok (record {
    deposit_root = deposit_root;
    deposit_count = deposit_count;
    block_hash = block_hash;
  })

pub record DepositDataJson : Type 0 where
  pub public_key : Text
  pub withdrawal_credentials : Text
  pub amount : Text
  pub signature : Text

unfoldable pub marshal_deposit_data : DepositData → DepositDataJson
marshal_deposit_data x = record {
  public_key = format_hex x.public_key;
  withdrawal_credentials = format_hex x.withdrawal_credentials;
  amount = format_uint x.amount;
  signature = format_hex x.signature;
}

unfoldable pub unmarshal_deposit_data : DepositDataJson → Result DepositData
unmarshal_deposit_data j = do
  public_key ← read_array 48 (codes "public key") j.public_key
  withdrawal_credentials ← read_array 32 (codes "withdrawal credentials") j.withdrawal_credentials
  amount ← read_uint (codes "amount") j.amount
  signature ← read_array 96 (codes "signature") j.signature
  ok (record {
    public_key = public_key;
    withdrawal_credentials = withdrawal_credentials;
    amount = amount;
    signature = signature;
  })

pub record DepositMessage : Type 0 where
  pub public_key : BlsPubKey
  pub withdrawal_credentials : Bytes
  pub amount : Gwei

pub record DepositMessageJson : Type 0 where
  pub public_key : Text
  pub withdrawal_credentials : Text
  pub amount : Text

unfoldable pub marshal_deposit_message : DepositMessage → DepositMessageJson
marshal_deposit_message x = record {
  public_key = format_hex x.public_key;
  withdrawal_credentials = format_hex x.withdrawal_credentials;
  amount = format_uint x.amount;
}

unfoldable pub unmarshal_deposit_message : DepositMessageJson → Result DepositMessage
unmarshal_deposit_message j = do
  public_key ← read_array 48 (codes "public key") j.public_key
  withdrawal_credentials ← read_array 32 (codes "withdrawal credentials") j.withdrawal_credentials
  amount ← read_uint (codes "amount") j.amount
  ok (record {
    public_key = public_key;
    withdrawal_credentials = withdrawal_credentials;
    amount = amount;
  })

pub record WithdrawalJson : Type 0 where
  pub index : Text
  pub validator_index : Text
  pub address : Text
  pub amount : Text

unfoldable pub marshal_withdrawal : Withdrawal → WithdrawalJson
marshal_withdrawal x = record {
  index = format_uint x.index;
  validator_index = format_uint x.validator_index;
  address = format_hex x.address;
  amount = format_uint x.amount;
}

unfoldable pub unmarshal_withdrawal : WithdrawalJson → Result Withdrawal
unmarshal_withdrawal j = do
  index ← read_uint (codes "index") j.index
  validator_index ← read_uint (codes "validator index") j.validator_index
  address ← read_array 20 (codes "address") j.address
  amount ← read_uint (codes "amount") j.amount
  ok (record {
    index = index;
    validator_index = validator_index;
    address = address;
    amount = amount;
  })

pub record SyncAggregateJson : Type 0 where
  pub sync_committee_bits : Text
  pub sync_committee_signature : Text

unfoldable pub marshal_sync_aggregate : SyncAggregate → SyncAggregateJson
marshal_sync_aggregate x = record {
  sync_committee_bits = format_hex x.sync_committee_bits;
  sync_committee_signature = format_hex x.sync_committee_signature;
}

unfoldable pub unmarshal_sync_aggregate : SyncAggregateJson → Result SyncAggregate
unmarshal_sync_aggregate j = do
  sync_committee_bits ←
      read_sized 64
        (short_or_long 64 (codes "sync committee bits too short")
          (codes "sync committee bits too long"))
        (codes "sync committee bits") j.sync_committee_bits
  sync_committee_signature ←
      read_sized 96
        (short_or_long 96 (codes "sync committee signature short")
          (codes "sync committee signature long"))
        (codes "sync committee signature") j.sync_committee_signature
  ok (record {
    sync_committee_bits = sync_committee_bits;
    sync_committee_signature = sync_committee_signature;
  })

pub record SyncCommitteeMessage : Type 0 where
  pub slot : Slot
  pub beacon_block_root : Root
  pub validator_index : ValidatorIndex
  pub signature : BlsSignature

pub record SyncCommitteeMessageJson : Type 0 where
  pub slot : Text
  pub beacon_block_root : Text
  pub validator_index : Text
  pub signature : Text

unfoldable pub marshal_sync_committee_message : SyncCommitteeMessage → SyncCommitteeMessageJson
marshal_sync_committee_message x = record {
  slot = format_uint x.slot;
  beacon_block_root = format_hex x.beacon_block_root;
  validator_index = format_uint x.validator_index;
  signature = format_hex x.signature;
}

unfoldable pub unmarshal_sync_committee_message :
    SyncCommitteeMessageJson → Result SyncCommitteeMessage
unmarshal_sync_committee_message j = do
  slot ← read_uint (codes "slot") j.slot
  beacon_block_root ← read_array 32 (codes "beacon block root") j.beacon_block_root
  validator_index ← read_uint (codes "validator index") j.validator_index
  signature ← read_array 96 (codes "signature") j.signature
  ok (record {
    slot = slot;
    beacon_block_root = beacon_block_root;
    validator_index = validator_index;
    signature = signature;
  })

pub record ContributionAndProof : Type 0 where
  pub aggregator_index : ValidatorIndex
  pub contribution : Option SyncCommitteeContribution
  pub selection_proof : BlsSignature

pub record SignedContributionAndProof : Type 0 where
  pub message : Option ContributionAndProof
  pub signature : BlsSignature
