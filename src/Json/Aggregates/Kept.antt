-- ===== src/Json/Aggregates/Kept.antt =====
-- What is written as JSON is read back if it is valid with all that is within it, and not otherwise.
use go_eth2_client.Prelude.{Option, codes, ok, ◌≡◌, ◌↔◌, Gives, Gives-ok, arith, ◌>>=◌}
use go_eth2_client.Codec.Fields.{nested, written}
use go_eth2_client.Codec.Fields.Laws.{
  IsSized, IsThere, IsUint, IsGiven, need-Gives, need-given, need-same, nested-written, nested_kept,
  field_read, Gives-rest, read_array-Gives, read_array-format_hex, read_uint-Gives,
  read_uint-format_uint,
}
use go_eth2_client.Spec.Blocks.{Attestation}
use go_eth2_client.Json.Attestations.{AggregateAndProof, SignedAggregateAndProof}
use go_eth2_client.Json.Operations.{ContributionAndProof, SignedContributionAndProof}
use go_eth2_client.Json.Bits.{
  SyncCommitteeContribution, marshal_attestation, unmarshal_attestation,
  marshal_sync_committee_contribution, unmarshal_sync_committee_contribution,
}
use go_eth2_client.Json.Bits.Kept.{
  HasBits, HasContributionBits, attestation_kept, sync_committee_contribution_kept,
}
use go_eth2_client.Json.Aggregates.{
  AggregateAndProofJson, marshal_aggregate_and_proof, unmarshal_aggregate_and_proof,
  unpack_aggregate_and_proof, SignedAggregateAndProofJson, marshal_signed_aggregate_and_proof,
  unmarshal_signed_aggregate_and_proof, unpack_signed_aggregate_and_proof, ContributionAndProofJson,
  marshal_contribution_and_proof, unmarshal_contribution_and_proof, unpack_contribution_and_proof,
  SignedContributionAndProofJson, marshal_signed_contribution_and_proof,
  unmarshal_signed_contribution_and_proof, unpack_signed_contribution_and_proof,
}

abbrev pub IsAggregateAndProof : AggregateAndProof → Type 0
IsAggregateAndProof x =
    IsUint x.aggregator_index × IsGiven HasBits x.aggregate × IsSized 96 x.selection_proof

-- The conditions but for the value within.
abbrev HasShapeAggregateAndProof : AggregateAndProof → Type 0
HasShapeAggregateAndProof x =
    IsUint x.aggregator_index × IsThere x.aggregate × IsSized 96 x.selection_proof

unpack_aggregate_and_proof-HasShape :
    (j : AggregateAndProofJson) (given : Option Attestation)
    → Gives HasShapeAggregateAndProof (unpack_aggregate_and_proof j given)
unfolding unpack_aggregate_and_proof
unpack_aggregate_and_proof-HasShape j given = ground (
  arith,
  read_uint-Gives (codes "aggregator index") j.aggregator_index,
  need-Gives (codes "aggregate missing") given,
  read_array-Gives 96 (codes "selection proof") j.selection_proof,
)

unpack_aggregate_and_proof-same :
    (j : AggregateAndProofJson) (given : Option Attestation)
    → Gives (λ (y : AggregateAndProof). y.aggregate ≡ given) (unpack_aggregate_and_proof j given)
unfolding unpack_aggregate_and_proof
unpack_aggregate_and_proof-same j given =
    ground (arith, need-same (codes "aggregate missing") given)

aggregate_and_proof_back :
    (x : AggregateAndProof)
    → IsAggregateAndProof x
    → unmarshal_aggregate_and_proof (marshal_aggregate_and_proof x) ≡ ok x
unfolding marshal_aggregate_and_proof unmarshal_aggregate_and_proof unpack_aggregate_and_proof
aggregate_and_proof_back x h = rw (
  nested-written HasBits marshal_attestation unmarshal_attestation (λ a. (attestation_kept a).0)
      x.aggregate h.1,
  read_uint-format_uint (codes "aggregator index") x.aggregator_index h.0,
  need-given HasBits (codes "aggregate missing") x.aggregate h.1,
  read_array-format_hex 95 (codes "selection proof") x.selection_proof h.2,
)

aggregate_and_proof_kept :
    (x : AggregateAndProof)
    → unmarshal_aggregate_and_proof (marshal_aggregate_and_proof x) ≡ ok x
    → IsAggregateAndProof x
unfolding marshal_aggregate_and_proof unmarshal_aggregate_and_proof
aggregate_and_proof_kept x e =
    let j = marshal_aggregate_and_proof x in
    let r = nested unmarshal_attestation (written marshal_attestation x.aggregate) in
    let p : r ≡ ok x.aggregate =
      field_read (λ (y : AggregateAndProof). y.aggregate) r (unpack_aggregate_and_proof j)
        (unpack_aggregate_and_proof-same j) e in
    let h =
      Gives-ok HasShapeAggregateAndProof (r >>= unpack_aggregate_and_proof j)
        (Gives-rest HasShapeAggregateAndProof r (unpack_aggregate_and_proof j)
          (unpack_aggregate_and_proof-HasShape j))
        e in
    (
      h.0,
      nested_kept HasBits marshal_attestation unmarshal_attestation (λ a. (attestation_kept a).1)
          x.aggregate h.1 p,
      h.2,
    )

abbrev pub IsSignedAggregateAndProof : SignedAggregateAndProof → Type 0
IsSignedAggregateAndProof x = IsGiven IsAggregateAndProof x.message × IsSized 96 x.signature

-- The conditions but for the value within.
abbrev HasShapeSignedAggregateAndProof : SignedAggregateAndProof → Type 0
HasShapeSignedAggregateAndProof x = IsThere x.message × IsSized 96 x.signature

unpack_signed_aggregate_and_proof-HasShape :
    (j : SignedAggregateAndProofJson) (given : Option AggregateAndProof)
    → Gives HasShapeSignedAggregateAndProof (unpack_signed_aggregate_and_proof j given)
unfolding unpack_signed_aggregate_and_proof
unpack_signed_aggregate_and_proof-HasShape j given = ground (
  arith,
  need-Gives (codes "message missing") given,
  read_array-Gives 96 (codes "signature") j.signature,
)

unpack_signed_aggregate_and_proof-same :
    (j : SignedAggregateAndProofJson) (given : Option AggregateAndProof)
    → Gives
        (λ (y : SignedAggregateAndProof). y.message ≡ given)
        (unpack_signed_aggregate_and_proof j given)
unfolding unpack_signed_aggregate_and_proof
unpack_signed_aggregate_and_proof-same j given =
    ground (arith, need-same (codes "message missing") given)

signed_aggregate_and_proof_back :
    (x : SignedAggregateAndProof)
    → IsSignedAggregateAndProof x
    → unmarshal_signed_aggregate_and_proof (marshal_signed_aggregate_and_proof x) ≡ ok x
unfolding marshal_signed_aggregate_and_proof unmarshal_signed_aggregate_and_proof
    unpack_signed_aggregate_and_proof
signed_aggregate_and_proof_back x h = rw (
  nested-written IsAggregateAndProof marshal_aggregate_and_proof unmarshal_aggregate_and_proof
      aggregate_and_proof_back x.message h.0,
  need-given IsAggregateAndProof (codes "message missing") x.message h.0,
  read_array-format_hex 95 (codes "signature") x.signature h.1,
)

signed_aggregate_and_proof_kept :
    (x : SignedAggregateAndProof)
    → unmarshal_signed_aggregate_and_proof (marshal_signed_aggregate_and_proof x) ≡ ok x
    → IsSignedAggregateAndProof x
unfolding marshal_signed_aggregate_and_proof unmarshal_signed_aggregate_and_proof
signed_aggregate_and_proof_kept x e =
    let j = marshal_signed_aggregate_and_proof x in
    let r = nested unmarshal_aggregate_and_proof (written marshal_aggregate_and_proof x.message) in
    let p : r ≡ ok x.message =
      field_read (λ (y : SignedAggregateAndProof). y.message) r
        (unpack_signed_aggregate_and_proof j) (unpack_signed_aggregate_and_proof-same j) e in
    let h =
      Gives-ok HasShapeSignedAggregateAndProof (r >>= unpack_signed_aggregate_and_proof j)
        (Gives-rest HasShapeSignedAggregateAndProof r (unpack_signed_aggregate_and_proof j)
          (unpack_signed_aggregate_and_proof-HasShape j))
        e in
    (
      nested_kept IsAggregateAndProof marshal_aggregate_and_proof unmarshal_aggregate_and_proof
          aggregate_and_proof_kept x.message h.0 p,
      h.1,
    )

abbrev pub IsContributionAndProof : ContributionAndProof → Type 0
IsContributionAndProof x =
    IsUint x.aggregator_index
    × IsGiven HasContributionBits x.contribution
    × IsSized 96 x.selection_proof

-- The conditions but for the value within.
abbrev HasShapeContributionAndProof : ContributionAndProof → Type 0
HasShapeContributionAndProof x =
    IsUint x.aggregator_index × IsThere x.contribution × IsSized 96 x.selection_proof

unpack_contribution_and_proof-HasShape :
    (j : ContributionAndProofJson) (given : Option SyncCommitteeContribution)
    → Gives HasShapeContributionAndProof (unpack_contribution_and_proof j given)
unfolding unpack_contribution_and_proof
unpack_contribution_and_proof-HasShape j given = ground (
  arith,
  read_uint-Gives (codes "aggregator index") j.aggregator_index,
  need-Gives (codes "contribution missing") given,
  read_array-Gives 96 (codes "selection proof") j.selection_proof,
)

unpack_contribution_and_proof-same :
    (j : ContributionAndProofJson) (given : Option SyncCommitteeContribution)
    → Gives
        (λ (y : ContributionAndProof). y.contribution ≡ given)
        (unpack_contribution_and_proof j given)
unfolding unpack_contribution_and_proof
unpack_contribution_and_proof-same j given =
    ground (arith, need-same (codes "contribution missing") given)

contribution_and_proof_back :
    (x : ContributionAndProof)
    → IsContributionAndProof x
    → unmarshal_contribution_and_proof (marshal_contribution_and_proof x) ≡ ok x
unfolding marshal_contribution_and_proof unmarshal_contribution_and_proof
    unpack_contribution_and_proof
contribution_and_proof_back x h = rw (
  nested-written HasContributionBits marshal_sync_committee_contribution
      unmarshal_sync_committee_contribution (λ a. (sync_committee_contribution_kept a).0)
      x.contribution h.1,
  read_uint-format_uint (codes "aggregator index") x.aggregator_index h.0,
  need-given HasContributionBits (codes "contribution missing") x.contribution h.1,
  read_array-format_hex 95 (codes "selection proof") x.selection_proof h.2,
)

contribution_and_proof_kept :
    (x : ContributionAndProof)
    → unmarshal_contribution_and_proof (marshal_contribution_and_proof x) ≡ ok x
    → IsContributionAndProof x
unfolding marshal_contribution_and_proof unmarshal_contribution_and_proof
contribution_and_proof_kept x e =
    let j = marshal_contribution_and_proof x in
    let r =
      nested unmarshal_sync_committee_contribution
        (written marshal_sync_committee_contribution x.contribution) in
    let p : r ≡ ok x.contribution =
      field_read (λ (y : ContributionAndProof). y.contribution) r (unpack_contribution_and_proof j)
        (unpack_contribution_and_proof-same j) e in
    let h =
      Gives-ok HasShapeContributionAndProof (r >>= unpack_contribution_and_proof j)
        (Gives-rest HasShapeContributionAndProof r (unpack_contribution_and_proof j)
          (unpack_contribution_and_proof-HasShape j))
        e in
    (
      h.0,
      nested_kept HasContributionBits marshal_sync_committee_contribution
          unmarshal_sync_committee_contribution (λ a. (sync_committee_contribution_kept a).1)
          x.contribution h.1 p,
      h.2,
    )

abbrev pub IsSignedContributionAndProof : SignedContributionAndProof → Type 0
IsSignedContributionAndProof x = IsGiven IsContributionAndProof x.message × IsSized 96 x.signature

-- The conditions but for the value within.
abbrev HasShapeSignedContributionAndProof : SignedContributionAndProof → Type 0
HasShapeSignedContributionAndProof x = IsThere x.message × IsSized 96 x.signature

unpack_signed_contribution_and_proof-HasShape :
    (j : SignedContributionAndProofJson) (given : Option ContributionAndProof)
    → Gives HasShapeSignedContributionAndProof (unpack_signed_contribution_and_proof j given)
unfolding unpack_signed_contribution_and_proof
unpack_signed_contribution_and_proof-HasShape j given = ground (
  arith,
  need-Gives (codes "message missing") given,
  read_array-Gives 96 (codes "signature") j.signature,
)

unpack_signed_contribution_and_proof-same :
    (j : SignedContributionAndProofJson) (given : Option ContributionAndProof)
    → Gives
        (λ (y : SignedContributionAndProof). y.message ≡ given)
        (unpack_signed_contribution_and_proof j given)
unfolding unpack_signed_contribution_and_proof
unpack_signed_contribution_and_proof-same j given =
    ground (arith, need-same (codes "message missing") given)

signed_contribution_and_proof_back :
    (x : SignedContributionAndProof)
    → IsSignedContributionAndProof x
    → unmarshal_signed_contribution_and_proof (marshal_signed_contribution_and_proof x) ≡ ok x
unfolding marshal_signed_contribution_and_proof unmarshal_signed_contribution_and_proof
    unpack_signed_contribution_and_proof
signed_contribution_and_proof_back x h = rw (
  nested-written IsContributionAndProof marshal_contribution_and_proof
      unmarshal_contribution_and_proof contribution_and_proof_back x.message h.0,
  need-given IsContributionAndProof (codes "message missing") x.message h.0,
  read_array-format_hex 95 (codes "signature") x.signature h.1,
)

signed_contribution_and_proof_kept :
    (x : SignedContributionAndProof)
    → unmarshal_signed_contribution_and_proof (marshal_signed_contribution_and_proof x) ≡ ok x
    → IsSignedContributionAndProof x
unfolding marshal_signed_contribution_and_proof unmarshal_signed_contribution_and_proof
signed_contribution_and_proof_kept x e =
    let j = marshal_signed_contribution_and_proof x in
    let r =
      nested unmarshal_contribution_and_proof (written marshal_contribution_and_proof x.message) in
    let p : r ≡ ok x.message =
      field_read (λ (y : SignedContributionAndProof). y.message) r
        (unpack_signed_contribution_and_proof j) (unpack_signed_contribution_and_proof-same j) e in
    let h =
      Gives-ok HasShapeSignedContributionAndProof (r >>= unpack_signed_contribution_and_proof j)
        (Gives-rest HasShapeSignedContributionAndProof r (unpack_signed_contribution_and_proof j)
          (unpack_signed_contribution_and_proof-HasShape j))
        e in
    (
      nested_kept IsContributionAndProof marshal_contribution_and_proof
          unmarshal_contribution_and_proof contribution_and_proof_kept x.message h.0 p,
      h.1,
    )

-- A value of an aggregate and proof or a signed one, or of a contribution and proof or a signed
-- one, is valid with all that is within it, and the attestation or contribution in it has at
-- least one byte of bits, exactly if it is read back from what it is written as in JSON.
pub aggregates_survive :
    (x0 : AggregateAndProof) (x1 : SignedAggregateAndProof) (x2 : ContributionAndProof)
    (x3 : SignedContributionAndProof)
    → (IsAggregateAndProof x0
        ↔ (unmarshal_aggregate_and_proof (marshal_aggregate_and_proof x0) ≡ ok x0))
      × (IsSignedAggregateAndProof x1
          ↔ (unmarshal_signed_aggregate_and_proof (marshal_signed_aggregate_and_proof x1) ≡ ok x1))
      × (IsContributionAndProof x2
          ↔ (unmarshal_contribution_and_proof (marshal_contribution_and_proof x2) ≡ ok x2))
      × (IsSignedContributionAndProof x3 ↔ (
          unmarshal_signed_contribution_and_proof (marshal_signed_contribution_and_proof x3)
          ≡ ok x3))
aggregates_survive x0 x1 x2 x3 = (
  (aggregate_and_proof_back x0, aggregate_and_proof_kept x0),
  (signed_aggregate_and_proof_back x1, signed_aggregate_and_proof_kept x1),
  (contribution_and_proof_back x2, contribution_and_proof_kept x2),
  (signed_contribution_and_proof_back x3, signed_contribution_and_proof_kept x3),
)
