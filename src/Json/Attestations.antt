-- ===== src/Json/Attestations.antt =====
-- The JSON of attestations: spec/phase0/checkpoint.go and its likes.
pub mod Kept
use go_eth2_client.Prelude.{
  BlsSignature, List, Option, ValidatorIndex, codes, map, Text, Result, ok, err, ◌>>=◌,
}
use go_eth2_client.Codec.Decimal.{format_uint}
use go_eth2_client.Codec.Hex.{format_hex}
use go_eth2_client.Codec.Fields.{nested, written, need, read_array, read_uint, read_uints}
use go_eth2_client.Spec.Blocks.{
  Attestation, AttestationData, AttesterSlashing, Checkpoint, IndexedAttestation,
}

pub record CheckpointJson : Type 0 where
  pub epoch : Text
  pub root : Text

unfoldable pub marshal_checkpoint : Checkpoint → CheckpointJson
marshal_checkpoint x = record { epoch = format_uint x.epoch; root = format_hex x.root }

unfoldable pub unmarshal_checkpoint : CheckpointJson → Result Checkpoint
unmarshal_checkpoint j = do
  epoch ← read_uint (codes "epoch") j.epoch
  root ← read_array 32 (codes "root") j.root
  ok (record { epoch = epoch; root = root })

pub record AttestationDataJson : Type 0 where
  pub slot : Text
  pub index : Text
  pub beacon_block_root : Text
  pub source : Option CheckpointJson
  pub target : Option CheckpointJson

unfoldable pub marshal_attestation_data : AttestationData → AttestationDataJson
marshal_attestation_data x = record {
  slot = format_uint x.slot;
  index = format_uint x.index;
  beacon_block_root = format_hex x.beacon_block_root;
  source = written marshal_checkpoint x.source;
  target = written marshal_checkpoint x.target;
}

-- The checks after `encoding/json` has read the values within.
unfoldable pub unpack_attestation_data :
    AttestationDataJson → Option Checkpoint → Option Checkpoint → Result AttestationData
unpack_attestation_data j given_source given_target = do
  slot ← read_uint (codes "slot") j.slot
  index ← read_uint (codes "index") j.index
  beacon_block_root ← read_array 32 (codes "beacon block root") j.beacon_block_root
  source ← need (codes "source missing") given_source
  target ← need (codes "target missing") given_target
  ok (record {
    slot = slot;
    index = index;
    beacon_block_root = beacon_block_root;
    source = source;
    target = target;
  })

unfoldable pub unmarshal_attestation_data : AttestationDataJson → Result AttestationData
unfolding unpack_attestation_data
unmarshal_attestation_data j = do
  given_source ← nested unmarshal_checkpoint j.source
  given_target ← nested unmarshal_checkpoint j.target
  unpack_attestation_data j given_source given_target

pub record IndexedAttestationJson : Type 0 where
  pub attesting_indices : List Text
  pub attestation_data : Option AttestationDataJson
  pub signature : Text

unfoldable pub marshal_indexed_attestation : IndexedAttestation → IndexedAttestationJson
marshal_indexed_attestation x = record {
  attesting_indices = map format_uint x.attesting_indices;
  attestation_data = written marshal_attestation_data x.attestation_data;
  signature = format_hex x.signature;
}

-- The checks after `encoding/json` has read the values within.
unfoldable pub unpack_indexed_attestation :
    IndexedAttestationJson → Option AttestationData → Result IndexedAttestation
unpack_indexed_attestation j given_attestation_data = do
  attesting_indices ← read_uints (codes "failed to parse attesting index") j.attesting_indices
  attestation_data ← need (codes "data missing") given_attestation_data
  signature ← read_array 96 (codes "signature") j.signature
  ok (record {
    attesting_indices = attesting_indices;
    attestation_data = attestation_data;
    signature = signature;
  })

unfoldable pub unmarshal_indexed_attestation : IndexedAttestationJson → Result IndexedAttestation
unfolding unpack_indexed_attestation
unmarshal_indexed_attestation j = do
  given_attestation_data ← nested unmarshal_attestation_data j.attestation_data
  unpack_indexed_attestation j given_attestation_data

pub record AttesterSlashingJson : Type 0 where
  pub attestation1 : Option IndexedAttestationJson
  pub attestation2 : Option IndexedAttestationJson

unfoldable pub marshal_attester_slashing : AttesterSlashing → AttesterSlashingJson
marshal_attester_slashing x = record {
  attestation1 = written marshal_indexed_attestation x.attestation1;
  attestation2 = written marshal_indexed_attestation x.attestation2;
}

-- The checks after `encoding/json` has read the values within.
unfoldable pub unpack_attester_slashing :
    AttesterSlashingJson
    → Option IndexedAttestation
    → Option IndexedAttestation
    → Result AttesterSlashing
unpack_attester_slashing j given_attestation1 given_attestation2 = do
  attestation1 ← need (codes "attestation 1 missing") given_attestation1
  attestation2 ← need (codes "attestation 2 missing") given_attestation2
  ok (record { attestation1 = attestation1; attestation2 = attestation2 })

unfoldable pub unmarshal_attester_slashing : AttesterSlashingJson → Result AttesterSlashing
unfolding unpack_attester_slashing
unmarshal_attester_slashing j = do
  given_attestation1 ← nested unmarshal_indexed_attestation j.attestation1
  given_attestation2 ← nested unmarshal_indexed_attestation j.attestation2
  unpack_attester_slashing j given_attestation1 given_attestation2

pub record AggregateAndProof : Type 0 where
  pub aggregator_index : ValidatorIndex
  pub aggregate : Option Attestation
  pub selection_proof : BlsSignature

pub record SignedAggregateAndProof : Type 0 where
  pub message : Option AggregateAndProof
  pub signature : BlsSignature
