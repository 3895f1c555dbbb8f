-- ===== src/Json/Duties/Kept.antt =====
-- What is written as JSON is read back, and what is read is valid.
use go_eth2_client.Prelude.{codes, ok, ◌≡◌, Gives, arith}
use go_eth2_client.Codec.Fields.Laws.{
  IsPositive, IsSized, IsSomeUints, IsUint, read_array-Gives, read_array-format_hex,
  read_array_of-Gives, read_array_of-format_hex, read_positive-Gives, read_positive-format_uint,
  read_some_uints-Gives, read_some_uints-map, read_uint-Gives, read_uint-format_uint,
}
use go_eth2_client.Http.Duties.{ProposerDuty}
use go_eth2_client.Json.Duties.{
  AttesterDutyJson, marshal_attester_duty, unmarshal_attester_duty, AttesterDuty, ProposerDutyJson,
  marshal_proposer_duty, unmarshal_proposer_duty, SyncCommitteeDutyJson,
  marshal_sync_committee_duty, unmarshal_sync_committee_duty, SyncCommitteeDuty,
  BeaconCommitteeSubscriptionJson, marshal_beacon_committee_subscription,
  unmarshal_beacon_committee_subscription, BeaconCommitteeSubscription,
  SyncCommitteeSubscriptionJson, marshal_sync_committee_subscription,
  unmarshal_sync_committee_subscription, SyncCommitteeSubscription, ValidatorBalanceJson,
  marshal_validator_balance, unmarshal_validator_balance, ValidatorBalance,
}

abbrev pub IsAttesterDuty : AttesterDuty → Type 0
IsAttesterDuty x =
    IsSized 48 x.pubkey
    × IsUint x.slot
    × IsUint x.validator_index
    × IsUint x.committee_index
    × IsPositive x.committee_length
    × IsPositive x.committees_at_slot
    × IsUint x.validator_committee_index

pub unmarshal_attester_duty-Gives :
    (j : AttesterDutyJson) → Gives IsAttesterDuty (unmarshal_attester_duty j)
unfolding unmarshal_attester_duty
unmarshal_attester_duty-Gives j = ground (
  arith,
  read_array-Gives 48 (codes "public key") j.pubkey,
  read_uint-Gives (codes "slot") j.slot,
  read_uint-Gives (codes "validator index") j.validator_index,
  read_uint-Gives (codes "committee index") j.committee_index,
  read_positive-Gives (codes "committee length") j.committee_length,
  read_positive-Gives (codes "committees at slot") j.committees_at_slot,
  read_uint-Gives (codes "validator committee index") j.validator_committee_index,
)

pub attester_duty_back :
    (x : AttesterDuty) → IsAttesterDuty x → unmarshal_attester_duty (marshal_attester_duty x) ≡ ok x
unfolding marshal_attester_duty unmarshal_attester_duty
attester_duty_back x h = rw (
  read_array-format_hex 47 (codes "public key") x.pubkey h.0,
  read_uint-format_uint (codes "slot") x.slot h.1,
  read_uint-format_uint (codes "validator index") x.validator_index h.2,
  read_uint-format_uint (codes "committee index") x.committee_index h.3,
  read_positive-format_uint (codes "committee length") x.committee_length h.4,
  read_positive-format_uint (codes "committees at slot") x.committees_at_slot h.5,
  read_uint-format_uint (codes "validator committee index") x.validator_committee_index h.6,
)

abbrev pub IsProposerDuty : ProposerDuty → Type 0
IsProposerDuty x = IsSized 48 x.public_key × IsUint x.slot × IsUint x.validator_index

pub unmarshal_proposer_duty-Gives :
    (j : ProposerDutyJson) → Gives IsProposerDuty (unmarshal_proposer_duty j)
unfolding unmarshal_proposer_duty
unmarshal_proposer_duty-Gives j = ground (
  arith,
  read_array_of-Gives 48 (codes "public key") j.public_key,
  read_uint-Gives (codes "slot") j.slot,
  read_uint-Gives (codes "validator index") j.validator_index,
)

pub proposer_duty_back :
    (x : ProposerDuty) → IsProposerDuty x → unmarshal_proposer_duty (marshal_proposer_duty x) ≡ ok x
unfolding marshal_proposer_duty unmarshal_proposer_duty
proposer_duty_back x h = rw (
  read_array_of-format_hex 47 (codes "public key") x.public_key h.0,
  read_uint-format_uint (codes "slot") x.slot h.1,
  read_uint-format_uint (codes "validator index") x.validator_index h.2,
)

abbrev pub IsSyncCommitteeDuty : SyncCommitteeDuty → Type 0
IsSyncCommitteeDuty x =
    IsSized 48 x.pubkey × IsUint x.validator_index × IsSomeUints x.validator_sync_committee_indices

pub unmarshal_sync_committee_duty-Gives :
    (j : SyncCommitteeDutyJson) → Gives IsSyncCommitteeDuty (unmarshal_sync_committee_duty j)
unfolding unmarshal_sync_committee_duty
unmarshal_sync_committee_duty-Gives j = ground (
  arith,
  read_array-Gives 48 (codes "public key") j.pubkey,
  read_uint-Gives (codes "validator index") j.validator_index,
  read_some_uints-Gives (codes "validator sync committee indices missing")
      (codes "invalid value for sync committee index") j.validator_sync_committee_indices,
)

pub sync_committee_duty_back :
    (x : SyncCommitteeDuty)
    → IsSyncCommitteeDuty x
    → unmarshal_sync_committee_duty (marshal_sync_committee_duty x) ≡ ok x
unfolding marshal_sync_committee_duty unmarshal_sync_committee_duty
sync_committee_duty_back x h = rw (
  read_array-format_hex 47 (codes "public key") x.pubkey h.0,
  read_uint-format_uint (codes "validator index") x.validator_index h.1,
  read_some_uints-map (codes "validator sync committee indices missing")
      (codes "invalid value for sync committee index") x.validator_sync_committee_indices h.2,
)

abbrev pub IsBeaconCommitteeSubscription : BeaconCommitteeSubscription → Type 0
IsBeaconCommitteeSubscription x =
    IsUint x.validator_index
    × IsUint x.slot
    × IsUint x.committee_index
    × IsPositive x.committees_at_slot

pub unmarshal_beacon_committee_subscription-Gives :
    (j : BeaconCommitteeSubscriptionJson)
    → Gives IsBeaconCommitteeSubscription (unmarshal_beacon_committee_subscription j)
unfolding unmarshal_beacon_committee_subscription
unmarshal_beacon_committee_subscription-Gives j = ground (
  arith,
  read_uint-Gives (codes "validator index") j.validator_index,
  read_uint-Gives (codes "slot") j.slot,
  read_uint-Gives (codes "committee index") j.committee_index,
  read_positive-Gives (codes "committees at slot") j.committees_at_slot,
)

pub beacon_committee_subscription_back :
    (x : BeaconCommitteeSubscription)
    → IsBeaconCommitteeSubscription x
    → unmarshal_beacon_committee_subscription (marshal_beacon_committee_subscription x) ≡ ok x
unfolding marshal_beacon_committee_subscription unmarshal_beacon_committee_subscription
beacon_committee_subscription_back x h = rw (
  read_uint-format_uint (codes "validator index") x.validator_index h.0,
  read_uint-format_uint (codes "slot") x.slot h.1,
  read_uint-format_uint (codes "committee index") x.committee_index h.2,
  read_positive-format_uint (codes "committees at slot") x.committees_at_slot h.3,
)

abbrev pub IsSyncCommitteeSubscription : SyncCommitteeSubscription → Type 0
IsSyncCommitteeSubscription x =
    IsUint x.validator_index × IsSomeUints x.sync_committee_indices × IsUint x.until_epoch

pub unmarshal_sync_committee_subscription-Gives :
    (j : SyncCommitteeSubscriptionJson)
    → Gives IsSyncCommitteeSubscription (unmarshal_sync_committee_subscription j)
unfolding unmarshal_sync_committee_subscription
unmarshal_sync_committee_subscription-Gives j = ground (
  arith,
  read_uint-Gives (codes "validator index") j.validator_index,
  read_some_uints-Gives (codes "sync committee indices missing")
      (codes "invalid value for sync committee index") j.sync_committee_indices,
  read_uint-Gives (codes "until epoch") j.until_epoch,
)

pub sync_committee_subscription_back :
    (x : SyncCommitteeSubscription)
    → IsSyncCommitteeSubscription x
    → unmarshal_sync_committee_subscription (marshal_sync_committee_subscription x) ≡ ok x
unfolding marshal_sync_committee_subscription unmarshal_sync_committee_subscription
sync_committee_subscription_back x h = rw (
  read_uint-format_uint (codes "validator index") x.validator_index h.0,
  read_some_uints-map (codes "sync committee indices missing")
      (codes "invalid value for sync committee index") x.sync_committee_indices h.1,
  read_uint-format_uint (codes "until epoch") x.until_epoch h.2,
)

abbrev pub IsValidatorBalance : ValidatorBalance → Type 0
IsValidatorBalance x = IsUint x.index × IsUint x.balance

pub unmarshal_validator_balance-Gives :
    (j : ValidatorBalanceJson) → Gives IsValidatorBalance (unmarshal_validator_balance j)
unfolding unmarshal_validator_balance
unmarshal_validator_balance-Gives j =
    ground
      (arith, read_uint-Gives (codes "index") j.index, read_uint-Gives (codes "balance") j.balance)

pub validator_balance_back :
    (x : ValidatorBalance)
    → IsValidatorBalance x
    → unmarshal_validator_balance (marshal_validator_balance x) ≡ ok x
unfolding marshal_validator_balance unmarshal_validator_balance
validator_balance_back x h = rw (
  read_uint-format_uint (codes "index") x.index h.0,
  read_uint-format_uint (codes "balance") x.balance h.1,
)
