-- ===== src/Json/Api.antt =====
-- The JSON of the types of api/v1/ that clients fetch: duties, subscriptions, balances and events.
use go_eth2_client.Codec.Fields.Laws.{Survives, survives}
use go_eth2_client.Json.Duties.{
  marshal_attester_duty, unmarshal_attester_duty, marshal_proposer_duty, unmarshal_proposer_duty,
  marshal_sync_committee_duty, unmarshal_sync_committee_duty, marshal_beacon_committee_subscription,
  unmarshal_beacon_committee_subscription, marshal_sync_committee_subscription,
  unmarshal_sync_committee_subscription, marshal_validator_balance, unmarshal_validator_balance,
  AttesterDuty, SyncCommitteeDuty, BeaconCommitteeSubscription, SyncCommitteeSubscription,
  ValidatorBalance,
}
use go_eth2_client.Http.Duties.{ProposerDuty}
use go_eth2_client.Json.Events.{
  marshal_block_event, unmarshal_block_event, marshal_chain_reorg_event,
  unmarshal_chain_reorg_event, marshal_finalized_checkpoint_event,
  unmarshal_finalized_checkpoint_event, BlockEvent, ChainReorgEvent, FinalizedCheckpointEvent,
}
use go_eth2_client.Json.Duties.Kept.{
  attester_duty_back, beacon_committee_subscription_back, proposer_duty_back,
  sync_committee_duty_back, sync_committee_subscription_back, unmarshal_attester_duty-Gives,
  unmarshal_beacon_committee_subscription-Gives, unmarshal_proposer_duty-Gives,
  unmarshal_sync_committee_duty-Gives, unmarshal_sync_committee_subscription-Gives,
  unmarshal_validator_balance-Gives, validator_balance_back, IsAttesterDuty, IsProposerDuty,
  IsSyncCommitteeDuty, IsBeaconCommitteeSubscription, IsSyncCommitteeSubscription,
  IsValidatorBalance,
}
use go_eth2_client.Json.Events.Kept.{
  block_event_back, chain_reorg_event_back, finalized_checkpoint_event_back,
  unmarshal_block_event-Gives, unmarshal_chain_reorg_event-Gives,
  unmarshal_finalized_checkpoint_event-Gives, IsBlockEvent, IsChainReorgEvent,
  IsFinalizedCheckpointEvent,
}

-- A value of an attester duty, a proposer duty, a sync committee duty, a subscription to a beacon
-- committee, a subscription to sync committees, a validator balance, a block event, a chain
-- reorganisation event or a finalized checkpoint event is valid exactly if it is read back from
-- what it is written as in JSON. It is valid exactly if it is read from something.
pub api_survive :
    (x0 : AttesterDuty) (x1 : ProposerDuty) (x2 : SyncCommitteeDuty)
    (x3 : BeaconCommitteeSubscription) (x4 : SyncCommitteeSubscription) (x5 : ValidatorBalance)
    (x6 : BlockEvent) (x7 : ChainReorgEvent) (x8 : FinalizedCheckpointEvent)
    → Survives marshal_attester_duty unmarshal_attester_duty IsAttesterDuty x0
      × Survives marshal_proposer_duty unmarshal_proposer_duty IsProposerDuty x1
      × Survives marshal_sync_committee_duty unmarshal_sync_committee_duty IsSyncCommitteeDuty x2
      × Survives marshal_beacon_committee_subscription unmarshal_beacon_committee_subscription
          IsBeaconCommitteeSubscription x3
      × Survives marshal_sync_committee_subscription unmarshal_sync_committee_subscription
          IsSyncCommitteeSubscription x4
      × Survives marshal_validator_balance unmarshal_validator_balance IsValidatorBalance x5
      × Survives marshal_block_event unmarshal_block_event IsBlockEvent x6
      × Survives marshal_chain_reorg_event unmarshal_chain_reorg_event IsChainReorgEvent x7
      × Survives marshal_finalized_checkpoint_event unmarshal_finalized_checkpoint_event
          IsFinalizedCheckpointEvent x8
api_survive x0 x1 x2 x3 x4 x5 x6 x7 x8 = (
  survives marshal_attester_duty unmarshal_attester_duty IsAttesterDuty
      unmarshal_attester_duty-Gives attester_duty_back x0,
  survives marshal_proposer_duty unmarshal_proposer_duty IsProposerDuty
      unmarshal_proposer_duty-Gives proposer_duty_back x1,
  survives marshal_sync_committee_duty unmarshal_sync_committee_duty IsSyncCommitteeDuty
      unmarshal_sync_committee_duty-Gives sync_committee_duty_back x2,
  survives marshal_beacon_committee_subscription unmarshal_beacon_committee_subscription
      IsBeaconCommitteeSubscription unmarshal_beacon_committee_subscription-Gives
      beacon_committee_subscription_back x3,
  survives marshal_sync_committee_subscription unmarshal_sync_committee_subscription
      IsSyncCommitteeSubscription unmarshal_sync_committee_subscription-Gives
      sync_committee_subscription_back x4,
  survives marshal_validator_balance unmarshal_validator_balance IsValidatorBalance
      unmarshal_validator_balance-Gives validator_balance_back x5,
  survives marshal_block_event unmarshal_block_event IsBlockEvent unmarshal_block_event-Gives
      block_event_back x6,
  survives marshal_chain_reorg_event unmarshal_chain_reorg_event IsChainReorgEvent
      unmarshal_chain_reorg_event-Gives chain_reorg_event_back x7,
  survives marshal_finalized_checkpoint_event unmarshal_finalized_checkpoint_event
      IsFinalizedCheckpointEvent unmarshal_finalized_checkpoint_event-Gives
      finalized_checkpoint_event_back x8,
)
