-- ===== src/Json/Bits.antt =====
-- The JSON of attestations and contributions, which hold a list of bits: spec/phase0/attestation.go and
-- its likes.
pub mod Kept
use go_eth2_client.Prelude.{
  BlsSignature, Bytes, Option, Root, Slot, ValidatorIndex, codes, ℕ, Text, Result, ok, err, ◌>>=◌,
}
use go_eth2_client.Codec.Decimal.{format_uint}
use go_eth2_client.Codec.Hex.{format_hex}
use go_eth2_client.Codec.Fields.{nested, written, need, read_array, read_bytes, read_uint}
use go_eth2_client.Json.Attestations.{
  AttestationDataJson, marshal_attestation_data, unmarshal_attestation_data,
}
use go_eth2_client.Spec.Blocks.{Attestation, AttestationData}

pub record AttestationJson : Type 0 where
  pub aggregation_bits : Text
  pub attestation_data : Option AttestationDataJson
  pub signature : Text

unfoldable pub marshal_attestation : Attestation → AttestationJson
marshal_attestation x = record {
  aggregation_bits = format_hex x.aggregation_bits;
  attestation_data = written marshal_attestation_data x.attestation_data;
  signature = format_hex x.signature;
}

-- The checks after `encoding/json` has read the values within.
unfoldable pub unpack_attestation : AttestationJson → Option AttestationData → Result Attestation
unpack_attestation j given_attestation_data = do
  aggregation_bits ←
      read_bytes (codes "aggregation bits missing") (codes "invalid value for beacon block root")
        j.aggregation_bits
  attestation_data ← need (codes "data missing") given_attestation_data
  signature ← read_array 96 (codes "signature") j.signature
  ok (record {
    aggregation_bits = aggregation_bits;
    attestation_data = attestation_data;
    signature = signature;
  })

unfoldable pub unmarshal_attestation : AttestationJson → Result Attestation
unfolding unpack_attestation
unmarshal_attestation j = do
  given_attestation_data ← nested unmarshal_attestation_data j.attestation_data
  unpack_attestation j given_attestation_data

pub record PendingAttestation : Type 0 where
  pub aggregation_bits : Bytes
  pub pending_attestation_data : Option AttestationData
  pub inclusion_delay : Slot
  pub proposer_index : ValidatorIndex

pub record PendingAttestationJson : Type 0 where
  pub aggregation_bits : Text
  pub pending_attestation_data : Option AttestationDataJson
  pub inclusion_delay : Text
  pub proposer_index : Text

unfoldable pub marshal_pending_attestation : PendingAttestation → PendingAttestationJson
marshal_pending_attestation x = record {
  aggregation_bits = format_hex x.aggregation_bits;
  pending_attestation_data = written marshal_attestation_data x.pending_attestation_data;
  inclusion_delay = format_uint x.inclusion_delay;
  proposer_index = format_uint x.proposer_index;
}

-- The checks after `encoding/json` has read the values within.
unfoldable pub unpack_pending_attestation :
    PendingAttestationJson → Option AttestationData → Result PendingAttestation
unpack_pending_attestation j given_pending_attestation_data = do
  aggregation_bits ←
      read_bytes (codes "aggregation bits missing") (codes "invalid value for aggregation bits")
        j.aggregation_bits
  pending_attestation_data ← need (codes "data missing") given_pending_attestation_data
  inclusion_delay ← read_uint (codes "inclusion delay") j.inclusion_delay
  proposer_index ← read_uint (codes "proposer index") j.proposer_index
  ok (record {
    aggregation_bits = aggregation_bits;
    pending_attestation_data = pending_attestation_data;
    inclusion_delay = inclusion_delay;
    proposer_index = proposer_index;
  })

unfoldable pub unmarshal_pending_attestation : PendingAttestationJson → Result PendingAttestation
unfolding unpack_pending_attestation
unmarshal_pending_attestation j = do
  given_pending_attestation_data ← nested unmarshal_attestation_data j.pending_attestation_data
  unpack_pending_attestation j given_pending_attestation_data

pub record SyncCommitteeContribution : Type 0 where
  pub slot : Slot
  pub beacon_block_root : Root
  pub subcommittee_index : ℕ
  pub aggregation_bits : Bytes
  pub signature : BlsSignature

pub record SyncCommitteeContributionJson : Type 0 where
  pub slot : Text
  pub beacon_block_root : Text
  pub subcommittee_index : Text
  pub aggregation_bits : Text
  pub signature : Text

unfoldable pub marshal_sync_committee_contribution :
    SyncCommitteeContribution → SyncCommitteeContributionJson
marshal_sync_committee_contribution x = record {
  slot = format_uint x.slot;
  beacon_block_root = format_hex x.beacon_block_root;
  subcommittee_index = format_uint x.subcommittee_index;
  aggregation_bits = format_hex x.aggregation_bits;
  signature = format_hex x.signature;
}

unfoldable pub unmarshal_sync_committee_contribution :
    SyncCommitteeContributionJson → Result SyncCommitteeContribution
unmarshal_sync_committee_contribution j = do
  slot ← read_uint (codes "slot") j.slot
  beacon_block_root ← read_array 32 (codes "beacon block root") j.beacon_block_root
  subcommittee_index ← read_uint (codes "subcommittee index") j.subcommittee_index
  aggregation_bits ←
      read_bytes (codes "aggregation bits missing") (codes "invalid value for aggregation bits")
        j.aggregation_bits
  signature ← read_array 96 (codes "signature") j.signature
  ok (record {
    slot = slot;
    beacon_block_root = beacon_block_root;
    subcommittee_index = subcommittee_index;
    aggregation_bits = aggregation_bits;
    signature = signature;
  })
