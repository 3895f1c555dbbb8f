-- ===== src/Spec/Blocks.antt =====
-- The blocks of the forks: spec/phase0, spec/altair, spec/bellatrix and spec/capella. A pointer is an
-- Option, and bytes of any length are a list.
use go_eth2_client.Prelude.{
  ℕ, Slot, Epoch, CommitteeIndex, ValidatorIndex, Gwei, Root, Bytes, BlsPubKey, BlsSignature,
  Option, List,
}

pub record Checkpoint : Type 0 where
  pub epoch : Epoch
  pub root : Root

pub record AttestationData : Type 0 where
  pub slot : Slot
  pub index : CommitteeIndex
  pub beacon_block_root : Root
  pub source : Option Checkpoint
  pub target : Option Checkpoint

pub record Attestation : Type 0 where
  pub aggregation_bits : Bytes
  pub attestation_data : Option AttestationData
  pub signature : BlsSignature

pub record IndexedAttestation : Type 0 where
  pub attesting_indices : List ℕ
  pub attestation_data : Option AttestationData
  pub signature : BlsSignature

pub record AttesterSlashing : Type 0 where
  pub attestation1 : Option IndexedAttestation
  pub attestation2 : Option IndexedAttestation

pub record BeaconBlockHeader : Type 0 where
  pub slot : Slot
  pub proposer_index : ValidatorIndex
  pub parent_root : Root
  pub state_root : Root
  pub body_root : Root

pub record SignedBeaconBlockHeader : Type 0 where
  pub message : Option BeaconBlockHeader
  pub signature : BlsSignature

pub record ProposerSlashing : Type 0 where
  pub signed_header1 : Option SignedBeaconBlockHeader
  pub signed_header2 : Option SignedBeaconBlockHeader

pub record Eth1Data : Type 0 where
  pub deposit_root : Root
  pub deposit_count : ℕ
  pub block_hash : Bytes

pub record DepositData : Type 0 where
  pub public_key : BlsPubKey
  pub withdrawal_credentials : Bytes
  pub amount : Gwei
  pub signature : BlsSignature

pub record Deposit : Type 0 where
  pub proof : List Bytes
  pub deposit_data : Option DepositData

pub record VoluntaryExit : Type 0 where
  pub epoch : Epoch
  pub validator_index : ValidatorIndex

pub record SignedVoluntaryExit : Type 0 where
  pub message : Option VoluntaryExit
  pub signature : BlsSignature

-- The fields that the bodies of all forks have, and the rest of a fork's own.
pub record BeaconBlockBody (Rest : Type 0) : Type 0 where
  pub randao_reveal : BlsSignature
  pub eth1_data : Option Eth1Data
  pub graffiti : Bytes
  pub proposer_slashings : List (Option ProposerSlashing)
  pub attester_slashings : List (Option AttesterSlashing)
  pub attestations : List (Option Attestation)
  pub deposits : List (Option Deposit)
  pub voluntary_exits : List (Option SignedVoluntaryExit)
  pub rest : Rest

-- The forks' blocks have the same fields but for the body.
pub record BeaconBlock (Rest : Type 0) : Type 0 where
  pub slot : Slot
  pub proposer_index : ValidatorIndex
  pub parent_root : Root
  pub state_root : Root
  pub body : Option (BeaconBlockBody Rest)

pub record SignedBeaconBlock (Rest : Type 0) : Type 0 where
  pub message : Option (BeaconBlock Rest)
  pub signature : BlsSignature

-- spec/altair: the rest of a body.
pub record SyncAggregate : Type 0 where
  pub sync_committee_bits : Bytes
  pub sync_committee_signature : BlsSignature

-- spec/capella: the payload has withdrawals, which that of Bellatrix has not.
pub record Withdrawal : Type 0 where
  pub index : ℕ
  pub validator_index : ValidatorIndex
  pub address : Bytes
  pub amount : Gwei

-- The fields that the payloads of both forks have.
pub record ExecutionPayload : Type 0 where
  pub parent_hash : Bytes
  pub fee_recipient : Bytes
  pub state_root : Bytes
  pub receipts_root : Bytes
  pub logs_bloom : Bytes
  pub prev_randao : Bytes
  pub block_number : ℕ
  pub gas_limit : ℕ
  pub gas_used : ℕ
  pub timestamp : ℕ
  pub extra_data : Bytes
  pub base_fee_per_gas : Bytes
  pub block_hash : Bytes
  pub transactions : List Bytes

pub record CapellaPayload : Type 0 where
  pub payload : ExecutionPayload
  pub withdrawals : List (Option Withdrawal)

pub record BlsToExecutionChange : Type 0 where
  pub validator_index : ValidatorIndex
  pub from_bls_pubkey : BlsPubKey
  pub to_execution_address : Bytes

pub record SignedBlsToExecutionChange : Type 0 where
  pub message : Option BlsToExecutionChange
  pub signature : BlsSignature

abbrev pub Phase0Rest : Type 0
Phase0Rest = Unit {0}

pub record AltairRest : Type 0 where
  pub sync_aggregate : Option SyncAggregate

pub record BellatrixRest : Type 0 where
  pub sync_aggregate : Option SyncAggregate
  pub execution_payload : Option ExecutionPayload

pub record CapellaRest : Type 0 where
  pub sync_aggregate : Option SyncAggregate
  pub execution_payload : Option CapellaPayload
  pub bls_to_execution_changes : List (Option SignedBlsToExecutionChange)
