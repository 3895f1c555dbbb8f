-- ===== src/Json/Samples.antt =====
-- A valid value of each type.
use go_eth2_client.Prelude.{true, some, [], ◌∷◌, replicate}
use go_eth2_client.Api.ValidatorState.{Validator}
use go_eth2_client.Http.Duties.{ProposerDuty}
use go_eth2_client.Http.Queries.{Finality}
use go_eth2_client.Http.Service.{DepositContract, Fork}
use go_eth2_client.Json.Attestations.{AggregateAndProof, SignedAggregateAndProof}
use go_eth2_client.Json.Bits.{PendingAttestation, SyncCommitteeContribution}
use go_eth2_client.Json.Chain.{ForkData, SigningData}
use go_eth2_client.Json.Duties.{
  AttesterDuty, BeaconCommitteeSubscription, SyncCommitteeDuty, SyncCommitteeSubscription,
  ValidatorBalance,
}
use go_eth2_client.Json.Events.{BlockEvent, ChainReorgEvent, FinalizedCheckpointEvent}
use go_eth2_client.Json.Operations.{
  ContributionAndProof, DepositMessage, SignedContributionAndProof, SyncCommitteeMessage,
}
use go_eth2_client.Multi.Call.{SyncState}
use go_eth2_client.Spec.Blocks.{
  Attestation, AttestationData, AttesterSlashing, BeaconBlockHeader, Checkpoint, DepositData,
  Eth1Data, IndexedAttestation, ProposerSlashing, SignedBeaconBlockHeader, SignedVoluntaryExit,
  SyncAggregate, VoluntaryExit, Withdrawal,
}
use go_eth2_client.Json.Chain

abbrev pub beacon_block_header_sample : BeaconBlockHeader
beacon_block_header_sample = record {
  slot = 1;
  proposer_index = 1;
  parent_root = replicate 32 1;
  state_root = replicate 32 1;
  body_root = replicate 32 1;
}

abbrev pub signed_beacon_block_header_sample : SignedBeaconBlockHeader
signed_beacon_block_header_sample = record {
  message = some beacon_block_header_sample;
  signature = replicate 96 1;
}

abbrev pub proposer_slashing_sample : ProposerSlashing
proposer_slashing_sample = record {
  signed_header1 = some signed_beacon_block_header_sample;
  signed_header2 = some signed_beacon_block_header_sample;
}

abbrev pub voluntary_exit_sample : VoluntaryExit
voluntary_exit_sample = record { epoch = 1; validator_index = 1 }

abbrev pub signed_voluntary_exit_sample : SignedVoluntaryExit
signed_voluntary_exit_sample = record {
  message = some voluntary_exit_sample;
  signature = replicate 96 1;
}

abbrev pub checkpoint_sample : Checkpoint
checkpoint_sample = record { epoch = 1; root = replicate 32 1 }

abbrev pub attestation_data_sample : AttestationData
attestation_data_sample = record {
  slot = 1;
  index = 1;
  beacon_block_root = replicate 32 1;
  source = some checkpoint_sample;
  target = some checkpoint_sample;
}

abbrev pub indexed_attestation_sample : IndexedAttestation
indexed_attestation_sample = record {
  attesting_indices = 1 ∷ [];
  attestation_data = some attestation_data_sample;
  signature = replicate 96 1;
}

abbrev pub attester_slashing_sample : AttesterSlashing
attester_slashing_sample = record {
  attestation1 = some indexed_attestation_sample;
  attestation2 = some indexed_attestation_sample;
}

abbrev pub attestation_sample : Attestation
attestation_sample = record {
  aggregation_bits = 1 ∷ [];
  attestation_data = some attestation_data_sample;
  signature = replicate 96 1;
}

abbrev pub aggregate_and_proof_sample : AggregateAndProof
aggregate_and_proof_sample = record {
  aggregator_index = 1;
  aggregate = some attestation_sample;
  selection_proof = replicate 96 1;
}

abbrev pub signed_aggregate_and_proof_sample : SignedAggregateAndProof
signed_aggregate_and_proof_sample = record {
  message = some aggregate_and_proof_sample;
  signature = replicate 96 1;
}

abbrev pub pending_attestation_sample : PendingAttestation
pending_attestation_sample = record {
  aggregation_bits = 1 ∷ [];
  pending_attestation_data = some attestation_data_sample;
  inclusion_delay = 1;
  proposer_index = 1;
}

abbrev pub sync_committee_contribution_sample : SyncCommitteeContribution
sync_committee_contribution_sample = record {
  slot = 1;
  beacon_block_root = replicate 32 1;
  subcommittee_index = 1;
  aggregation_bits = 1 ∷ [];
  signature = replicate 96 1;
}

abbrev pub eth1_data_sample : Eth1Data
eth1_data_sample = record {
  deposit_root = replicate 32 1;
  deposit_count = 1;
  block_hash = replicate 32 1;
}

abbrev pub deposit_data_sample : DepositData
deposit_data_sample = record {
  public_key = replicate 48 1;
  withdrawal_credentials = replicate 32 1;
  amount = 1;
  signature = replicate 96 1;
}

abbrev pub deposit_message_sample : DepositMessage
deposit_message_sample = record {
  public_key = replicate 48 1;
  withdrawal_credentials = replicate 32 1;
  amount = 1;
}

abbrev pub withdrawal_sample : Withdrawal
withdrawal_sample = record { index = 1; validator_index = 1; address = replicate 20 1; amount = 1 }

abbrev pub sync_aggregate_sample : SyncAggregate
sync_aggregate_sample = record {
  sync_committee_bits = replicate 64 1;
  sync_committee_signature = replicate 96 1;
}

abbrev pub sync_committee_message_sample : SyncCommitteeMessage
sync_committee_message_sample = record {
  slot = 1;
  beacon_block_root = replicate 32 1;
  validator_index = 1;
  signature = replicate 96 1;
}

abbrev pub contribution_and_proof_sample : ContributionAndProof
contribution_and_proof_sample = record {
  aggregator_index = 1;
  contribution = some sync_committee_contribution_sample;
  selection_proof = replicate 96 1;
}

abbrev pub signed_contribution_and_proof_sample : SignedContributionAndProof
signed_contribution_and_proof_sample = record {
  message = some contribution_and_proof_sample;
  signature = replicate 96 1;
}

abbrev pub deposit_contract_sample : DepositContract
deposit_contract_sample = record { chain_id = 1; contract_address = replicate 20 1 }

abbrev pub sync_state_sample : SyncState
sync_state_sample = record {
  head_slot = 1;
  sync_distance = 1;
  is_optimistic = true;
  is_syncing = true;
}

abbrev pub finality_sample : Finality
finality_sample = record {
  finalized = some checkpoint_sample;
  justified = some checkpoint_sample;
  previous_justified = some checkpoint_sample;
}

abbrev pub fork_sample : Fork
fork_sample = record {
  previous_version = replicate 4 1;
  current_version = replicate 4 1;
  epoch = 1;
}

abbrev pub fork_data_sample : ForkData
fork_data_sample = record {
  current_version = replicate 4 1;
  genesis_validators_root = replicate 32 1;
}

abbrev pub signing_data_sample : SigningData
signing_data_sample = record { object_root = replicate 32 1; domain = replicate 32 1 }

abbrev pub validator_sample : Validator
validator_sample = record {
  public_key = replicate 48 1;
  withdrawal_credentials = replicate 32 1;
  effective_balance = 1;
  slashed = true;
  activation_eligibility_epoch = 1;
  activation_epoch = 1;
  exit_epoch = 1;
  withdrawable_epoch = 1;
}

abbrev pub attester_duty_sample : AttesterDuty
attester_duty_sample = record {
  pubkey = replicate 48 1;
  slot = 1;
  validator_index = 1;
  committee_index = 1;
  committee_length = 1;
  committees_at_slot = 1;
  validator_committee_index = 1;
}

abbrev pub proposer_duty_sample : ProposerDuty
proposer_duty_sample = record { public_key = replicate 48 1; slot = 1; validator_index = 1 }

abbrev pub sync_committee_duty_sample : SyncCommitteeDuty
sync_committee_duty_sample = record {
  pubkey = replicate 48 1;
  validator_index = 1;
  validator_sync_committee_indices = 1 ∷ [];
}

abbrev pub beacon_committee_subscription_sample : BeaconCommitteeSubscription
beacon_committee_subscription_sample = record {
  validator_index = 1;
  slot = 1;
  committee_index = 1;
  committees_at_slot = 1;
  is_aggregator = true;
}

abbrev pub sync_committee_subscription_sample : SyncCommitteeSubscription
sync_committee_subscription_sample = record {
  validator_index = 1;
  sync_committee_indices = 1 ∷ [];
  until_epoch = 1;
}

abbrev pub validator_balance_sample : ValidatorBalance
validator_balance_sample = record { index = 1; balance = 1 }

abbrev pub block_event_sample : BlockEvent
block_event_sample = record { slot = 1; block = replicate 32 1; execution_optimistic = true }

abbrev pub chain_reorg_event_sample : ChainReorgEvent
chain_reorg_event_sample = record {
  slot = 1;
  depth = 1;
  old_head_block = replicate 32 1;
  new_head_block = replicate 32 1;
  old_head_state = replicate 32 1;
  new_head_state = replicate 32 1;
  epoch = 1;
}

abbrev pub finalized_checkpoint_event_sample : FinalizedCheckpointEvent
finalized_checkpoint_event_sample = record {
  block = replicate 32 1;
  state = replicate 32 1;
  epoch = 1;
}

abbrev pub header_info_sample : Chain.BeaconBlockHeader
header_info_sample = record {
  root = replicate 32 1;
  canonical = true;
  header = some signed_beacon_block_header_sample;
}
