-- ===== src/Clients/Client.antt =====
-- service.go: what the methods take and return, and a client as its callers see it.
use go_eth2_client.Prelude.{
  ℕ, ℤ, Text, Bytes, Bool, Option, List, Ending, BlsPubKey, BlsSignature, CommitteeIndex, Domain,
  DomainType, Epoch, Gwei, Root, Slot, ValidatorIndex,
}
use go_eth2_client.Api.Blinded.{VersionedBlindedBeaconBlock}
use go_eth2_client.Api.SignedBlinded.{VersionedSignedBlindedBeaconBlock}
use go_eth2_client.Http.Duties.{ProposerDuty}
use go_eth2_client.Http.Queries.{Finality}
use go_eth2_client.Http.Service.{DepositContract, Fork, Genesis, SpecMap}
use go_eth2_client.Http.Submit.{VersionedSignedValidatorRegistration}
use go_eth2_client.Json.Attestations.{SignedAggregateAndProof}
use go_eth2_client.Json.Bits.{SyncCommitteeContribution}
use go_eth2_client.Json.Chain.{BeaconBlockHeader}
use go_eth2_client.Json.Duties.{
  AttesterDuty, BeaconCommitteeSubscription, SyncCommitteeDuty, SyncCommitteeSubscription,
}
use go_eth2_client.Json.Operations.{SignedContributionAndProof, SyncCommitteeMessage}
use go_eth2_client.Multi.Call.{SyncState}
use go_eth2_client.Spec.Blocks.{
  Attestation, AttestationData, SignedBlsToExecutionChange, SignedVoluntaryExit,
}
use go_eth2_client.Spec.Versioned.{VersionedBeaconBlock, VersionedSignedBeaconBlock}
use go_eth2_client.Clients.Methods.{
  Interface, Method, epoch_from_state_id, slot_from_state_id, node_version, slot_duration,
  slots_per_epoch, far_future_epoch, genesis_validators_root, target_aggregators_per_committee,
  index, pubkey, deposit_contract, signed_beacon_block, beacon_committees,
  beacon_committees_at_epoch, sync_committee, sync_committee_at_epoch, aggregate_attestation,
  submit_aggregate_attestations, attestation_data, attestation_pool, submit_attestations,
  attester_duties, sync_committee_duties, submit_sync_committee_messages,
  submit_sync_committee_subscriptions, sync_committee_contribution,
  submit_sync_committee_contributions, submit_bls_to_execution_changes, beacon_block_header,
  beacon_block_proposal, beacon_block_root, submit_beacon_block,
  submit_beacon_committee_subscriptions, beacon_state, beacon_state_randao, beacon_state_root,
  blinded_beacon_block_proposal, submit_blinded_beacon_block, submit_validator_registrations,
  events, finality, fork, fork_schedule, genesis, node_syncing, submit_proposal_preparations,
  proposer_duties, spec, sync_state, validator_balances, validators, validators_by_pubkey,
  submit_voluntary_exit, domain, genesis_time, node_client,
}

-- The types that no other part of the model has.
pub record Values : Type 1 where
  pub BeaconCommittee : Type 0
  pub SyncCommittee : Type 0
  pub VersionedBeaconState : Type 0
  pub ProposalPreparation : Type 0
  pub SignedValidatorRegistration : Type 0
  pub Validator : Type 0
  pub EventHandlerFunc : Type 0

-- What a method takes after its context.
abbrev pub Args : Values → Method → Type 0
Args v epoch_from_state_id = Text
Args v slot_from_state_id = Text
Args v node_version = Unit {0}
Args v slot_duration = Unit {0}
Args v slots_per_epoch = Unit {0}
Args v far_future_epoch = Unit {0}
Args v genesis_validators_root = Unit {0}
Args v target_aggregators_per_committee = Unit {0}
Args v index = Unit {0}
Args v pubkey = Unit {0}
Args v deposit_contract = Unit {0}
Args v signed_beacon_block = Text
Args v beacon_committees = Text
Args v beacon_committees_at_epoch = Text × Epoch
Args v sync_committee = Text
Args v sync_committee_at_epoch = Text × Epoch
Args v aggregate_attestation = Slot × Root
Args v submit_aggregate_attestations = List (Option SignedAggregateAndProof)
Args v attestation_data = Slot × CommitteeIndex
Args v attestation_pool = Slot
Args v submit_attestations = List (Option Attestation)
Args v attester_duties = Epoch × List ValidatorIndex
Args v sync_committee_duties = Epoch × List ValidatorIndex
Args v submit_sync_committee_messages = List (Option SyncCommitteeMessage)
Args v submit_sync_committee_subscriptions = List (Option SyncCommitteeSubscription)
Args v sync_committee_contribution = Slot × ℕ × Root
Args v submit_sync_committee_contributions = List (Option SignedContributionAndProof)
Args v submit_bls_to_execution_changes = List (Option SignedBlsToExecutionChange)
Args v beacon_block_header = Text
Args v beacon_block_proposal = Slot × BlsSignature × Bytes
Args v beacon_block_root = Text
Args v submit_beacon_block = Option VersionedSignedBeaconBlock
Args v submit_beacon_committee_subscriptions = List (Option BeaconCommitteeSubscription)
Args v beacon_state = Text
Args v beacon_state_randao = Text
Args v beacon_state_root = Text
Args v blinded_beacon_block_proposal = Slot × BlsSignature × Bytes
Args v submit_blinded_beacon_block = Option VersionedSignedBlindedBeaconBlock
Args v submit_validator_registrations =
    List (Option (VersionedSignedValidatorRegistration v.SignedValidatorRegistration))
Args v events = List Text × v.EventHandlerFunc
Args v finality = Text
Args v fork = Text
Args v fork_schedule = Unit {0}
Args v genesis = Unit {0}
Args v node_syncing = Unit {0}
Args v submit_proposal_preparations = List (Option v.ProposalPreparation)
Args v proposer_duties = Epoch × List ValidatorIndex
Args v spec = Unit {0}
Args v sync_state = Unit {0}
Args v validator_balances = Text × List ValidatorIndex
Args v validators = Text × List ValidatorIndex
Args v validators_by_pubkey = Text × List BlsPubKey
Args v submit_voluntary_exit = Option SignedVoluntaryExit
Args v domain = DomainType × Epoch
Args v genesis_time = Unit {0}
Args v node_client = Unit {0}

-- What a method returns besides its error.
abbrev pub Returns : Values → Method → Type 0
Returns v epoch_from_state_id = Epoch
Returns v slot_from_state_id = Slot
Returns v node_version = Text
Returns v slot_duration = ℕ
Returns v slots_per_epoch = ℕ
Returns v far_future_epoch = Epoch
Returns v genesis_validators_root = Bytes
Returns v target_aggregators_per_committee = ℕ
Returns v index = ValidatorIndex
Returns v pubkey = BlsPubKey
Returns v deposit_contract = Option DepositContract
Returns v signed_beacon_block = Option VersionedSignedBeaconBlock
Returns v beacon_committees = List (Option v.BeaconCommittee)
Returns v beacon_committees_at_epoch = List (Option v.BeaconCommittee)
Returns v sync_committee = Option v.SyncCommittee
Returns v sync_committee_at_epoch = Option v.SyncCommittee
Returns v aggregate_attestation = Option Attestation
Returns v submit_aggregate_attestations = Unit {0}
Returns v attestation_data = Option AttestationData
Returns v attestation_pool = List (Option Attestation)
Returns v submit_attestations = Unit {0}
Returns v attester_duties = List (Option AttesterDuty)
Returns v sync_committee_duties = List (Option SyncCommitteeDuty)
Returns v submit_sync_committee_messages = Unit {0}
Returns v submit_sync_committee_subscriptions = Unit {0}
Returns v sync_committee_contribution = Option SyncCommitteeContribution
Returns v submit_sync_committee_contributions = Unit {0}
Returns v submit_bls_to_execution_changes = Unit {0}
Returns v beacon_block_header = Option BeaconBlockHeader
Returns v beacon_block_proposal = Option VersionedBeaconBlock
Returns v beacon_block_root = Option Root
Returns v submit_beacon_block = Unit {0}
Returns v submit_beacon_committee_subscriptions = Unit {0}
Returns v beacon_state = Option v.VersionedBeaconState
Returns v beacon_state_randao = Option Root
Returns v beacon_state_root = Option Root
Returns v blinded_beacon_block_proposal = Option VersionedBlindedBeaconBlock
Returns v submit_blinded_beacon_block = Unit {0}
Returns v submit_validator_registrations = Unit {0}
Returns v events = Unit {0}
Returns v finality = Option Finality
Returns v fork = Option Fork
Returns v fork_schedule = List (Option Fork)
Returns v genesis = Option Genesis
Returns v node_syncing = Option SyncState
Returns v submit_proposal_preparations = Unit {0}
Returns v proposer_duties = List (Option ProposerDuty)
Returns v spec = SpecMap
Returns v sync_state = Option SyncState
Returns v validator_balances = List (ValidatorIndex × Gwei)
Returns v validators = List (ValidatorIndex × Option v.Validator)
Returns v validators_by_pubkey = List (ValidatorIndex × Option v.Validator)
Returns v submit_voluntary_exit = Unit {0}
Returns v domain = Domain
Returns v genesis_time = ℤ
Returns v node_client = Text

module _ (v : Values) (World : Type 0) where
  abbrev pub Call : Type 0
  Call = (m : Method) → Args v m → World → Ending (Returns v m) × World

  -- A value of the interface `Service`. An interface is implemented or not; `call` is used for the
  -- methods of those that are.
  pub record Client : Type 0 where
    pub client_name : Text
    pub client_address : Text
    pub implements : Interface → Bool
    pub call : Call
