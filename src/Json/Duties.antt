-- ===== src/Json/Duties.antt =====
-- The JSON of duties, subscriptions and balances: api/v1/attesterduty.go and its likes.
pub mod Kept
use go_eth2_client.Prelude.{
  BlsPubKey, Bool, CommitteeIndex, Epoch, Gwei, List, Slot, ValidatorIndex, codes, map, ℕ, Text,
  Result, ok, err, ◌>>=◌,
}
use go_eth2_client.Codec.Decimal.{format_uint}
use go_eth2_client.Codec.Hex.{format_hex}
use go_eth2_client.Codec.Fields.{
  read_array, read_array_of, read_positive, read_some_uints, read_uint,
}
use go_eth2_client.Http.Duties.{ProposerDuty}

pub record AttesterDuty : Type 0 where
  pub pubkey : BlsPubKey
  pub slot : Slot
  pub validator_index : ValidatorIndex
  pub committee_index : CommitteeIndex
  pub committee_length : ℕ
  pub committees_at_slot : ℕ
  pub validator_committee_index : ℕ

pub record AttesterDutyJson : Type 0 where
  pub pubkey : Text
  pub slot : Text
  pub validator_index : Text
  pub committee_index : Text
  pub committee_length : Text
  pub committees_at_slot : Text
  pub validator_committee_index : Text

unfoldable pub marshal_attester_duty : AttesterDuty → AttesterDutyJson
marshal_attester_duty x = record {
  pubkey = format_hex x.pubkey;
  slot = format_uint x.slot;
  validator_index = format_uint x.validator_index;
  committee_index = format_uint x.committee_index;
  committee_length = format_uint x.committee_length;
  committees_at_slot = format_uint x.committees_at_slot;
  validator_committee_index = format_uint x.validator_committee_index;
}

unfoldable pub unmarshal_attester_duty : AttesterDutyJson → Result AttesterDuty
unmarshal_attester_duty j = do
  pubkey ← read_array 48 (codes "public key") j.pubkey
  slot ← read_uint (codes "slot") j.slot
  validator_index ← read_uint (codes "validator index") j.validator_index
  committee_index ← read_uint (codes "committee index") j.committee_index
  committee_length ← read_positive (codes "committee length") j.committee_length
  committees_at_slot ← read_positive (codes "committees at slot") j.committees_at_slot
  validator_committee_index ←
      read_uint (codes "validator committee index") j.validator_committee_index
  ok (record {
    pubkey = pubkey;
    slot = slot;
    validator_index = validator_index;
    committee_index = committee_index;
    committee_length = committee_length;
    committees_at_slot = committees_at_slot;
    validator_committee_index = validator_committee_index;
  })

pub record ProposerDutyJson : Type 0 where
  pub public_key : Text
  pub slot : Text
  pub validator_index : Text

unfoldable pub marshal_proposer_duty : ProposerDuty → ProposerDutyJson
marshal_proposer_duty x = record {
  public_key = format_hex x.public_key;
  slot = format_uint x.slot;
  validator_index = format_uint x.validator_index;
}

unfoldable pub unmarshal_proposer_duty : ProposerDutyJson → Result ProposerDuty
unmarshal_proposer_duty j = do
  public_key ← read_array_of 48 (codes "public key") j.public_key
  slot ← read_uint (codes "slot") j.slot
  validator_index ← read_uint (codes "validator index") j.validator_index
  ok (record { public_key = public_key; slot = slot; validator_index = validator_index })

pub record SyncCommitteeDuty : Type 0 where
  pub pubkey : BlsPubKey
  pub validator_index : ValidatorIndex
  pub validator_sync_committee_indices : List CommitteeIndex

pub record SyncCommitteeDutyJson : Type 0 where
  pub pubkey : Text
  pub validator_index : Text
  pub validator_sync_committee_indices : List Text

unfoldable pub marshal_sync_committee_duty : SyncCommitteeDuty → SyncCommitteeDutyJson
marshal_sync_committee_duty x = record {
  pubkey = format_hex x.pubkey;
  validator_index = format_uint x.validator_index;
  validator_sync_committee_indices = map format_uint x.validator_sync_committee_indices;
}

unfoldable pub unmarshal_sync_committee_duty : SyncCommitteeDutyJson → Result SyncCommitteeDuty
unmarshal_sync_committee_duty j = do
  pubkey ← read_array 48 (codes "public key") j.pubkey
  validator_index ← read_uint (codes "validator index") j.validator_index
  validator_sync_committee_indices ←
      read_some_uints (codes "validator sync committee indices missing")
        (codes "invalid value for sync committee index") j.validator_sync_committee_indices
  ok (record {
    pubkey = pubkey;
    validator_index = validator_index;
    validator_sync_committee_indices = validator_sync_committee_indices;
  })

pub record BeaconCommitteeSubscription : Type 0 where
  pub validator_index : ValidatorIndex
  pub slot : Slot
  pub committee_index : CommitteeIndex
  pub committees_at_slot : ℕ
  pub is_aggregator : Bool

pub record BeaconCommitteeSubscriptionJson : Type 0 where
  pub validator_index : Text
  pub slot : Text
  pub committee_index : Text
  pub committees_at_slot : Text
  pub is_aggregator : Bool

unfoldable pub marshal_beacon_committee_subscription :
    BeaconCommitteeSubscription → BeaconCommitteeSubscriptionJson
marshal_beacon_committee_subscription x = record {
  validator_index = format_uint x.validator_index;
  slot = format_uint x.slot;
  committee_index = format_uint x.committee_index;
  committees_at_slot = format_uint x.committees_at_slot;
  is_aggregator = x.is_aggregator;
}

unfoldable pub unmarshal_beacon_committee_subscription :
    BeaconCommitteeSubscriptionJson → Result BeaconCommitteeSubscription
unmarshal_beacon_committee_subscription j = do
  validator_index ← read_uint (codes "validator index") j.validator_index
  slot ← read_uint (codes "slot") j.slot
  committee_index ← read_uint (codes "committee index") j.committee_index
  committees_at_slot ← read_positive (codes "committees at slot") j.committees_at_slot
  ok (record {
    validator_index = validator_index;
    slot = slot;
    committee_index = committee_index;
    committees_at_slot = committees_at_slot;
    is_aggregator = j.is_aggregator;
  })

pub record SyncCommitteeSubscription : Type 0 where
  pub validator_index : ValidatorIndex
  pub sync_committee_indices : List CommitteeIndex
  pub until_epoch : Epoch

pub record SyncCommitteeSubscriptionJson : Type 0 where
  pub validator_index : Text
  pub sync_committee_indices : List Text
  pub until_epoch : Text

unfoldable pub marshal_sync_committee_subscription :
    SyncCommitteeSubscription → SyncCommitteeSubscriptionJson
marshal_sync_committee_subscription x = record {
  validator_index = format_uint x.validator_index;
  sync_committee_indices = map format_uint x.sync_committee_indices;
  until_epoch = format_uint x.until_epoch;
}

unfoldable pub unmarshal_sync_committee_subscription :
    SyncCommitteeSubscriptionJson → Result SyncCommitteeSubscription
unmarshal_sync_committee_subscription j = do
  validator_index ← read_uint (codes "validator index") j.validator_index
  sync_committee_indices ←
      read_some_uints (codes "sync committee indices missing")
        (codes "invalid value for sync committee index") j.sync_committee_indices
  until_epoch ← read_uint (codes "until epoch") j.until_epoch
  ok (record {
    validator_index = validator_index;
    sync_committee_indices = sync_committee_indices;
    until_epoch = until_epoch;
  })

pub record ValidatorBalance : Type 0 where
  pub index : ValidatorIndex
  pub balance : Gwei

pub record ValidatorBalanceJson : Type 0 where
  pub index : Text
  pub balance : Text

unfoldable pub marshal_validator_balance : ValidatorBalance → ValidatorBalanceJson
marshal_validator_balance x = record {
  index = format_uint x.index;
  balance = format_uint x.balance;
}

unfoldable pub unmarshal_validator_balance : ValidatorBalanceJson → Result ValidatorBalance
unmarshal_validator_balance j = do
  index ← read_uint (codes "index") j.index
  balance ← read_uint (codes "balance") j.balance
  ok (record { index = index; balance = balance })
