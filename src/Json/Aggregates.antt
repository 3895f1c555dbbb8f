-- ===== src/Json/Aggregates.antt =====
-- The JSON of aggregates and contributions with a proof: spec/phase0/aggregateandproof.go and its likes.
pub mod Kept
use go_eth2_client.Prelude.{Option, codes, Text, Result, ok, err, ◌>>=◌}
use go_eth2_client.Codec.Decimal.{format_uint}
use go_eth2_client.Codec.Hex.{format_hex}
use go_eth2_client.Codec.Fields.{need, nested, written, read_array, read_uint}
use go_eth2_client.Spec.Blocks.{Attestation}
use go_eth2_client.Json.Attestations.{AggregateAndProof, SignedAggregateAndProof}
use go_eth2_client.Json.Operations.{ContributionAndProof, SignedContributionAndProof}
use go_eth2_client.Json.Bits.{
  SyncCommitteeContribution, AttestationJson, SyncCommitteeContributionJson, marshal_attestation,
  unmarshal_attestation, marshal_sync_committee_contribution, unmarshal_sync_committee_contribution,
}

pub record AggregateAndProofJson : Type 0 where
  pub aggregator_index : Text
  pub aggregate : Option AttestationJson
  pub selection_proof : Text

unfoldable pub marshal_aggregate_and_proof : AggregateAndProof → AggregateAndProofJson
marshal_aggregate_and_proof x = record {
  aggregator_index = format_uint x.aggregator_index;
  aggregate = written marshal_attestation x.aggregate;
  selection_proof = format_hex x.selection_proof;
}

-- The checks after `encoding/json` has read the value within.
unfoldable pub unpack_aggregate_and_proof :
    AggregateAndProofJson → Option Attestation → Result AggregateAndProof
unpack_aggregate_and_proof j given = do
  aggregator_index ← read_uint (codes "aggregator index") j.aggregator_index
  aggregate ← need (codes "aggregate missing") given
  selection_proof ← read_array 96 (codes "selection proof") j.selection_proof
  ok (record {
    aggregator_index = aggregator_index;
    aggregate = aggregate;
    selection_proof = selection_proof;
  })

unfoldable pub unmarshal_aggregate_and_proof : AggregateAndProofJson → Result AggregateAndProof
unfolding unpack_aggregate_and_proof
unmarshal_aggregate_and_proof j =
    nested unmarshal_attestation j.aggregate >>= unpack_aggregate_and_proof j

pub record SignedAggregateAndProofJson : Type 0 where
  pub message : Option AggregateAndProofJson
  pub signature : Text

unfoldable pub marshal_signed_aggregate_and_proof :
    SignedAggregateAndProof → SignedAggregateAndProofJson
marshal_signed_aggregate_and_proof x = record {
  message = written marshal_aggregate_and_proof x.message;
  signature = format_hex x.signature;
}

-- The checks after `encoding/json` has read the value within.
unfoldable pub unpack_signed_aggregate_and_proof :
    SignedAggregateAndProofJson → Option AggregateAndProof → Result SignedAggregateAndProof
unpack_signed_aggregate_and_proof j given = do
  message ← need (codes "message missing") given
  signature ← read_array 96 (codes "signature") j.signature
  ok (record { message = message; signature = signature })

unfoldable pub unmarshal_signed_aggregate_and_proof :
    SignedAggregateAndProofJson → Result SignedAggregateAndProof
unfolding unpack_signed_aggregate_and_proof
unmarshal_signed_aggregate_and_proof j =
    nested unmarshal_aggregate_and_proof j.message >>= unpack_signed_aggregate_and_proof j

pub record ContributionAndProofJson : Type 0 where
  pub aggregator_index : Text
  pub contribution : Option SyncCommitteeContributionJson
  pub selection_proof : Text

unfoldable pub marshal_contribution_and_proof : ContributionAndProof → ContributionAndProofJson
marshal_contribution_and_proof x = record {
  aggregator_index = format_uint x.aggregator_index;
  contribution = written marshal_sync_committee_contribution x.contribution;
  selection_proof = format_hex x.selection_proof;
}

-- The checks after `encoding/json` has read the value within.
unfoldable pub unpack_contribution_and_proof :
    ContributionAndProofJson → Option SyncCommitteeContribution → Result ContributionAndProof
unpack_contribution_and_proof j given = do
  aggregator_index ← read_uint (codes "aggregator index") j.aggregator_index
  contribution ← need (codes "contribution missing") given
  selection_proof ← read_array 96 (codes "selection proof") j.selection_proof
  ok (record {
    aggregator_index = aggregator_index;
    contribution = contribution;
    selection_proof = selection_proof;
  })

unfoldable pub unmarshal_contribution_and_proof :
    ContributionAndProofJson → Result ContributionAndProof
unfolding unpack_contribution_and_proof
unmarshal_contribution_and_proof j =
    nested unmarshal_sync_committee_contribution j.contribution >>= unpack_contribution_and_proof j

pub record SignedContributionAndProofJson : Type 0 where
  pub message : Option ContributionAndProofJson
  pub signature : Text

unfoldable pub marshal_signed_contribution_and_proof :
    SignedContributionAndProof → SignedContributionAndProofJson
marshal_signed_contribution_and_proof x = record {
  message = written marshal_contribution_and_proof x.message;
  signature = format_hex x.signature;
}

-- The checks after `encoding/json` has read the value within.
unfoldable pub unpack_signed_contribution_and_proof :
    SignedContributionAndProofJson → Option ContributionAndProof → Result SignedContributionAndProof
unpack_signed_contribution_and_proof j given = do
  message ← need (codes "message missing") given
  signature ← read_array 96 (codes "signature") j.signature
  ok (record { message = message; signature = signature })

unfoldable pub unmarshal_signed_contribution_and_proof :
    SignedContributionAndProofJson → Result SignedContributionAndProof
unfolding unpack_signed_contribution_and_proof
unmarshal_signed_contribution_and_proof j =
    nested unmarshal_contribution_and_proof j.message >>= unpack_signed_contribution_and_proof j
