-- ===== src/Clients/Methods.antt =====
-- service.go: the interfaces of a client and the names of their methods.

pub data Interface : Type 0 where
  epoch_from_state_id_provider slot_from_state_id_provider node_version_provider
        slot_duration_provider slots_per_epoch_provider far_future_epoch_provider
        genesis_validators_root_provider target_aggregators_per_committee_provider
        validator_index_provider validator_pubkey_provider deposit_contract_provider
        signed_beacon_block_provider beacon_committees_provider sync_committees_provider
        aggregate_attestation_provider aggregate_attestations_submitter attestation_data_provider
        attestation_pool_provider attestations_submitter attester_duties_provider
        sync_committee_duties_provider sync_committee_messages_submitter
        sync_committee_subscriptions_submitter sync_committee_contribution_provider
        sync_committee_contributions_submitter bls_to_execution_changes_submitter
        beacon_block_headers_provider beacon_block_proposal_provider beacon_block_root_provider
        beacon_block_submitter beacon_committee_subscriptions_submitter beacon_state_provider
        beacon_state_randao_provider beacon_state_root_provider
        blinded_beacon_block_proposal_provider blinded_beacon_block_submitter
        validator_registrations_submitter events_provider finality_provider fork_provider
        fork_schedule_provider genesis_provider node_syncing_provider
        proposal_preparations_submitter proposer_duties_provider spec_provider sync_state_provider
        validator_balances_provider validators_provider voluntary_exit_submitter domain_provider
        genesis_time_provider node_client_provider :
      Interface

pub data Method : Type 0 where
  epoch_from_state_id slot_from_state_id node_version slot_duration slots_per_epoch far_future_epoch
        genesis_validators_root target_aggregators_per_committee index pubkey deposit_contract
        signed_beacon_block beacon_committees beacon_committees_at_epoch sync_committee
        sync_committee_at_epoch aggregate_attestation submit_aggregate_attestations attestation_data
        attestation_pool submit_attestations attester_duties sync_committee_duties
        submit_sync_committee_messages submit_sync_committee_subscriptions
        sync_committee_contribution submit_sync_committee_contributions
        submit_bls_to_execution_changes beacon_block_header beacon_block_proposal beacon_block_root
        submit_beacon_block submit_beacon_committee_subscriptions beacon_state beacon_state_randao
        beacon_state_root blinded_beacon_block_proposal submit_blinded_beacon_block
        submit_validator_registrations events finality fork fork_schedule genesis node_syncing
        submit_proposal_preparations proposer_duties spec sync_state validator_balances validators
        validators_by_pubkey submit_voluntary_exit domain genesis_time node_client :
      Method

-- The interface that has the method.
unfoldable pub interface_of : Method → Interface
interface_of epoch_from_state_id = epoch_from_state_id_provider
interface_of slot_from_state_id = slot_from_state_id_provider
interface_of node_version = node_version_provider
interface_of slot_duration = slot_duration_provider
interface_of slots_per_epoch = slots_per_epoch_provider
interface_of far_future_epoch = far_future_epoch_provider
interface_of genesis_validators_root = genesis_validators_root_provider
interface_of target_aggregators_per_committee = target_aggregators_per_committee_provider
interface_of index = validator_index_provider
interface_of pubkey = validator_pubkey_provider
interface_of deposit_contract = deposit_contract_provider
interface_of signed_beacon_block = signed_beacon_block_provider
interface_of beacon_committees = beacon_committees_provider
interface_of beacon_committees_at_epoch = beacon_committees_provider
interface_of sync_committee = sync_committees_provider
interface_of sync_committee_at_epoch = sync_committees_provider
interface_of aggregate_attestation = aggregate_attestation_provider
interface_of submit_aggregate_attestations = aggregate_attestations_submitter
interface_of attestation_data = attestation_data_provider
interface_of attestation_pool = attestation_pool_provider
interface_of submit_attestations = attestations_submitter
interface_of attester_duties = attester_duties_provider
interface_of sync_committee_duties = sync_committee_duties_provider
interface_of submit_sync_committee_messages = sync_committee_messages_submitter
interface_of submit_sync_committee_subscriptions = sync_committee_subscriptions_submitter
interface_of sync_committee_contribution = sync_committee_contribution_provider
interface_of submit_sync_committee_contributions = sync_committee_contributions_submitter
interface_of submit_bls_to_execution_changes = bls_to_execution_changes_submitter
interface_of beacon_block_header = beacon_block_headers_provider
interface_of beacon_block_proposal = beacon_block_proposal_provider
interface_of beacon_block_root = beacon_block_root_provider
interface_of submit_beacon_block = beacon_block_submitter
interface_of submit_beacon_committee_subscriptions = beacon_committee_subscriptions_submitter
interface_of beacon_state = beacon_state_provider
interface_of beacon_state_randao = beacon_state_randao_provider
interface_of beacon_state_root = beacon_state_root_provider
interface_of blinded_beacon_block_proposal = blinded_beacon_block_proposal_provider
interface_of submit_blinded_beacon_block = blinded_beacon_block_submitter
interface_of submit_validator_registrations = validator_registrations_submitter
interface_of events = events_provider
interface_of finality = finality_provider
interface_of fork = fork_provider
interface_of fork_schedule = fork_schedule_provider
interface_of genesis = genesis_provider
interface_of node_syncing = node_syncing_provider
interface_of submit_proposal_preparations = proposal_preparations_submitter
interface_of proposer_duties = proposer_duties_provider
interface_of spec = spec_provider
interface_of sync_state = sync_state_provider
interface_of validator_balances = validator_balances_provider
interface_of validators = validators_provider
interface_of validators_by_pubkey = validators_provider
interface_of submit_voluntary_exit = voluntary_exit_submitter
interface_of domain = domain_provider
interface_of genesis_time = genesis_time_provider
interface_of node_client = node_client_provider
