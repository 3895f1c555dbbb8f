-- ===== src/Json/Tests.antt =====
-- The theorems on the JSON of the types at valid values.
use go_eth2_client.Prelude.{ok, returns, All, ◌≡◌, ◌↔◌, ◌≢◌, []}
use go_eth2_client.Codec.Fields.Laws.{Survives}
use go_eth2_client.Json.Samples.{
  aggregate_and_proof_sample, signed_aggregate_and_proof_sample, contribution_and_proof_sample,
  signed_contribution_and_proof_sample, attestation_data_sample, attestation_sample,
  attester_duty_sample, attester_slashing_sample, beacon_block_header_sample,
  beacon_committee_subscription_sample, block_event_sample, chain_reorg_event_sample,
  checkpoint_sample, deposit_contract_sample, deposit_data_sample, deposit_message_sample,
  eth1_data_sample, finality_sample, finalized_checkpoint_event_sample, fork_data_sample,
  fork_sample, header_info_sample, indexed_attestation_sample, pending_attestation_sample,
  proposer_duty_sample, proposer_slashing_sample, signed_beacon_block_header_sample,
  signed_voluntary_exit_sample, signing_data_sample, sync_aggregate_sample,
  sync_committee_contribution_sample, sync_committee_duty_sample, sync_committee_message_sample,
  sync_committee_subscription_sample, sync_state_sample, validator_balance_sample, validator_sample,
  voluntary_exit_sample, withdrawal_sample,
}
use go_eth2_client.Json.Headers
use go_eth2_client.Json.Attestations
use go_eth2_client.Json.Bits
use go_eth2_client.Json.Aggregates
use go_eth2_client.Json.Operations
use go_eth2_client.Json.Chain
use go_eth2_client.Json.Duties
use go_eth2_client.Json.Events
use go_eth2_client.Json.Headers.Kept.{
  IsBeaconBlockHeader, IsProposerSlashing, IsSignedBeaconBlockHeader, IsSignedVoluntaryExit,
  IsVoluntaryExit,
}
use go_eth2_client.Json.Attestations.Kept.{
  IsAttestationData, IsAttesterSlashing, IsCheckpoint, IsIndexedAttestation,
}
use go_eth2_client.Json.Bits.Kept.{
  IsAttestation, IsPendingAttestation, IsSyncCommitteeContribution, bits_survive,
}
use go_eth2_client.Json.Aggregates.Kept.{
  IsAggregateAndProof, IsSignedAggregateAndProof, IsContributionAndProof,
  IsSignedContributionAndProof, aggregates_survive,
}
use go_eth2_client.Json.Operations.Kept.{
  IsDepositData, IsDepositMessage, IsEth1Data, IsSyncAggregate, IsSyncCommitteeMessage,
  IsWithdrawal, operations_survive,
}
use go_eth2_client.Json.Chain.Kept.{
  IsDepositContract, IsFinality, IsFork, IsForkData, IsSigningData, IsSyncState, IsValidator,
  chain_survive,
}
use go_eth2_client.Json.Api.{api_survive}
use go_eth2_client.Codec.Panics.{GivesAtEnd}
use go_eth2_client.Codec.Payload.Laws.{IsNotEmpty}
use go_eth2_client.Spec.Blocks.{CapellaPayload}
use go_eth2_client.Json.Payload
use go_eth2_client.Json.PayloadHeader
use go_eth2_client.Json.Payload.Kept.{IsExecutionPayload}
use go_eth2_client.Json.PayloadHeader.Kept.{IsExecutionPayloadHeader, IsCapellaHeader}
use go_eth2_client.Json.Payload.Tests.{payload_sample, capella_sample}
use go_eth2_client.Json.PayloadHeader.Tests.{payload_header_sample, capella_header_sample}
use go_eth2_client.Json.Execution.{
  again, capella_again, header_again, capella_header_again, execution_survive,
}
use go_eth2_client.Json.Phase0.{phase0_survive}
use go_eth2_client.Json.Duties.Kept.{
  IsAttesterDuty, IsBeaconCommitteeSubscription, IsProposerDuty, IsSyncCommitteeDuty,
  IsSyncCommitteeSubscription, IsValidatorBalance,
}
use go_eth2_client.Json.Events.Kept.{IsBlockEvent, IsChainReorgEvent, IsFinalizedCheckpointEvent}
use go_eth2_client.Json.Chain.Kept

phase0_survive_example :
    Survives Attestations.marshal_checkpoint Attestations.unmarshal_checkpoint IsCheckpoint
      checkpoint_sample
    × Survives Attestations.marshal_attestation_data Attestations.unmarshal_attestation_data
        IsAttestationData attestation_data_sample
    × Survives Attestations.marshal_indexed_attestation Attestations.unmarshal_indexed_attestation
        IsIndexedAttestation indexed_attestation_sample
    × Survives Attestations.marshal_attester_slashing Attestations.unmarshal_attester_slashing
        IsAttesterSlashing attester_slashing_sample
    × Survives Headers.marshal_beacon_block_header Headers.unmarshal_beacon_block_header
        IsBeaconBlockHeader beacon_block_header_sample
    × Survives Headers.marshal_signed_beacon_block_header
        Headers.unmarshal_signed_beacon_block_header IsSignedBeaconBlockHeader
        signed_beacon_block_header_sample
    × Survives Headers.marshal_proposer_slashing Headers.unmarshal_proposer_slashing
        IsProposerSlashing proposer_slashing_sample
    × Survives Headers.marshal_voluntary_exit Headers.unmarshal_voluntary_exit IsVoluntaryExit
        voluntary_exit_sample
    × Survives Headers.marshal_signed_voluntary_exit Headers.unmarshal_signed_voluntary_exit
        IsSignedVoluntaryExit signed_voluntary_exit_sample
phase0_survive_example =
    phase0_survive checkpoint_sample attestation_data_sample indexed_attestation_sample
      attester_slashing_sample beacon_block_header_sample signed_beacon_block_header_sample
      proposer_slashing_sample voluntary_exit_sample signed_voluntary_exit_sample

bits_survive_example :
    ((IsAttestation attestation_sample × (attestation_sample.aggregation_bits ≢ [])) ↔ (
      Bits.unmarshal_attestation (Bits.marshal_attestation attestation_sample)
      ≡ ok attestation_sample))
    × ((IsPendingAttestation pending_attestation_sample
          × (pending_attestation_sample.aggregation_bits ≢ []))
        ↔ (Bits.unmarshal_pending_attestation
              (Bits.marshal_pending_attestation pending_attestation_sample)
            ≡ ok pending_attestation_sample))
    × ((IsSyncCommitteeContribution sync_committee_contribution_sample
          × (sync_committee_contribution_sample.aggregation_bits ≢ []))
        ↔ (Bits.unmarshal_sync_committee_contribution
              (Bits.marshal_sync_committee_contribution sync_committee_contribution_sample)
            ≡ ok sync_committee_contribution_sample))
bits_survive_example =
    bits_survive attestation_sample pending_attestation_sample sync_committee_contribution_sample

operations_survive_example :
    Survives Operations.marshal_eth1_data Operations.unmarshal_eth1_data IsEth1Data eth1_data_sample
    × Survives Operations.marshal_deposit_data Operations.unmarshal_deposit_data IsDepositData
        deposit_data_sample
    × Survives Operations.marshal_deposit_message Operations.unmarshal_deposit_message
        IsDepositMessage deposit_message_sample
    × Survives Operations.marshal_withdrawal Operations.unmarshal_withdrawal IsWithdrawal
        withdrawal_sample
    × Survives Operations.marshal_sync_aggregate Operations.unmarshal_sync_aggregate IsSyncAggregate
        sync_aggregate_sample
    × Survives Operations.marshal_sync_committee_message Operations.unmarshal_sync_committee_message
        IsSyncCommitteeMessage sync_committee_message_sample
operations_survive_example =
    operations_survive eth1_data_sample deposit_data_sample deposit_message_sample withdrawal_sample
      sync_aggregate_sample sync_committee_message_sample

chain_survive_example :
    Survives Chain.marshal_deposit_contract Chain.unmarshal_deposit_contract IsDepositContract
      deposit_contract_sample
    × Survives Chain.marshal_sync_state Chain.unmarshal_sync_state IsSyncState sync_state_sample
    × Survives Chain.marshal_finality Chain.unmarshal_finality IsFinality finality_sample
    × Survives Chain.marshal_beacon_block_header Chain.unmarshal_beacon_block_header
        Kept.IsBeaconBlockHeader header_info_sample
    × Survives Chain.marshal_fork Chain.unmarshal_fork IsFork fork_sample
    × Survives Chain.marshal_fork_data Chain.unmarshal_fork_data IsForkData fork_data_sample
    × Survives Chain.marshal_signing_data Chain.unmarshal_signing_data IsSigningData
        signing_data_sample
    × Survives Chain.marshal_validator Chain.unmarshal_validator IsValidator validator_sample
chain_survive_example =
    chain_survive deposit_contract_sample sync_state_sample finality_sample header_info_sample
      fork_sample fork_data_sample signing_data_sample validator_sample

api_survive_example :
    Survives Duties.marshal_attester_duty Duties.unmarshal_attester_duty IsAttesterDuty
      attester_duty_sample
    × Survives Duties.marshal_proposer_duty Duties.unmarshal_proposer_duty IsProposerDuty
        proposer_duty_sample
    × Survives Duties.marshal_sync_committee_duty Duties.unmarshal_sync_committee_duty
        IsSyncCommitteeDuty sync_committee_duty_sample
    × Survives Duties.marshal_beacon_committee_subscription
        Duties.unmarshal_beacon_committee_subscription IsBeaconCommitteeSubscription
        beacon_committee_subscription_sample
    × Survives Duties.marshal_sync_committee_subscription
        Duties.unmarshal_sync_committee_subscription IsSyncCommitteeSubscription
        sync_committee_subscription_sample
    × Survives Duties.marshal_validator_balance Duties.unmarshal_validator_balance
        IsValidatorBalance validator_balance_sample
    × Survives Events.marshal_block_event Events.unmarshal_block_event IsBlockEvent
        block_event_sample
    × Survives Events.marshal_chain_reorg_event Events.unmarshal_chain_reorg_event IsChainReorgEvent
        chain_reorg_event_sample
    × Survives Events.marshal_finalized_checkpoint_event Events.unmarshal_finalized_checkpoint_event
        IsFinalizedCheckpointEvent finalized_checkpoint_event_sample
api_survive_example =
    api_survive attester_duty_sample proposer_duty_sample sync_committee_duty_sample
      beacon_committee_subscription_sample sync_committee_subscription_sample
      validator_balance_sample block_event_sample chain_reorg_event_sample
      finalized_checkpoint_event_sample

execution_survive_example :
    let a = Payload.marshal_execution_payload payload_sample in
    let b = Payload.marshal_capella_payload capella_sample in
    let c = PayloadHeader.marshal_execution_payload_header payload_header_sample in
    let d = PayloadHeader.marshal_capella_header capella_header_sample in
    ((IsExecutionPayload payload_sample × All IsNotEmpty payload_sample.transactions)
      ↔ (again payload_sample ≡ returns (ok payload_sample)))
    × ((IsExecutionPayload capella_sample.payload
          × All IsNotEmpty capella_sample.payload.transactions)
        ↔ (capella_again capella_sample ≡ returns (ok capella_sample)))
    × (IsExecutionPayloadHeader payload_header_sample
        ↔ (header_again payload_header_sample ≡ returns (ok payload_header_sample)))
    × (IsCapellaHeader capella_header_sample
        ↔ (capella_header_again capella_header_sample ≡ returns (ok capella_header_sample)))
    × GivesAtEnd IsExecutionPayload (Payload.unmarshal_execution_payload a)
    × GivesAtEnd
        (λ (z : CapellaPayload). IsExecutionPayload z.payload)
        (Payload.unmarshal_capella_payload b)
    × GivesAtEnd IsExecutionPayloadHeader (PayloadHeader.unmarshal_execution_payload_header c)
    × GivesAtEnd IsCapellaHeader (PayloadHeader.unmarshal_capella_header d)
execution_survive_example =
    execution_survive payload_sample capella_sample payload_header_sample capella_header_sample
      (Payload.marshal_execution_payload payload_sample)
      (Payload.marshal_capella_payload capella_sample)
      (PayloadHeader.marshal_execution_payload_header payload_header_sample)
      (PayloadHeader.marshal_capella_header capella_header_sample)

aggregates_survive_example :
    (IsAggregateAndProof aggregate_and_proof_sample ↔ (
      Aggregates.unmarshal_aggregate_and_proof
        (Aggregates.marshal_aggregate_and_proof aggregate_and_proof_sample)
      ≡ ok aggregate_and_proof_sample))
    × (IsSignedAggregateAndProof signed_aggregate_and_proof_sample ↔ (
        Aggregates.unmarshal_signed_aggregate_and_proof
          (Aggregates.marshal_signed_aggregate_and_proof signed_aggregate_and_proof_sample)
        ≡ ok signed_aggregate_and_proof_sample))
    × (IsContributionAndProof contribution_and_proof_sample ↔ (
        Aggregates.unmarshal_contribution_and_proof
          (Aggregates.marshal_contribution_and_proof contribution_and_proof_sample)
        ≡ ok contribution_and_proof_sample))
    × (IsSignedContributionAndProof signed_contribution_and_proof_sample ↔ (
        Aggregates.unmarshal_signed_contribution_and_proof
          (Aggregates.marshal_signed_contribution_and_proof signed_contribution_and_proof_sample)
        ≡ ok signed_contribution_and_proof_sample))
aggregates_survive_example =
    aggregates_survive aggregate_and_proof_sample signed_aggregate_and_proof_sample
      contribution_and_proof_sample signed_contribution_and_proof_sample
