-- ===== src/Json/Bits/Kept.antt =====
-- What is written as JSON is read back if it has bits, and not otherwise.
use go_eth2_client.Codec.Fields.{nested}
use go_eth2_client.Prelude.{
  Option, Gives-bind, codes, ok, ◌≡◌, Gives, arith, ◌≢◌, ◌↔◌, Gives-ok, [],
}
use go_eth2_client.Codec.Hex.RoundTrip.{IsBytes}
use go_eth2_client.Codec.Fields.Laws.{
  IsGiven, IsFine, need-IsGiven, need-given, nested-IsFine, nested-written, IsSized, IsUint,
  read_array-Gives, read_array-format_hex, read_bytes-Gives, read_bytes-format_hex,
  read_bytes_empty, read_uint-Gives, read_uint-format_uint,
}
use go_eth2_client.Json.Attestations.{marshal_attestation_data, unmarshal_attestation_data}
use go_eth2_client.Json.Attestations.Kept.{
  IsAttestationData, unmarshal_attestation_data-Gives, attestation_data_back,
}
use go_eth2_client.Spec.Blocks.{AttestationData, Attestation}
use go_eth2_client.Json.Bits.{
  AttestationJson, marshal_attestation, unmarshal_attestation, unpack_attestation,
  PendingAttestationJson, marshal_pending_attestation, unmarshal_pending_attestation,
  unpack_pending_attestation, PendingAttestation, SyncCommitteeContributionJson,
  marshal_sync_committee_contribution, unmarshal_sync_committee_contribution,
  SyncCommitteeContribution,
}

abbrev pub IsAttestation : Attestation → Type 0
IsAttestation x =
    IsBytes x.aggregation_bits
    × IsGiven IsAttestationData x.attestation_data
    × IsSized 96 x.signature

unpack_attestation-Gives :
    (j : AttestationJson) (given_attestation_data : Option AttestationData)
    → IsFine IsAttestationData given_attestation_data
    → Gives IsAttestation (unpack_attestation j given_attestation_data)
unfolding unpack_attestation
unpack_attestation-Gives j given_attestation_data h_attestation_data = ground (
  arith,
  read_bytes-Gives (codes "aggregation bits missing") (codes "invalid value for beacon block root")
      j.aggregation_bits,
  need-IsGiven IsAttestationData (codes "data missing") given_attestation_data h_attestation_data,
  read_array-Gives 96 (codes "signature") j.signature,
)

unmarshal_attestation-Gives : (j : AttestationJson) → Gives IsAttestation (unmarshal_attestation j)
unfolding unmarshal_attestation
unmarshal_attestation-Gives j =
    Gives-bind IsAttestation (IsFine IsAttestationData)
      (nested unmarshal_attestation_data j.attestation_data) _
      (nested-IsFine IsAttestationData unmarshal_attestation_data unmarshal_attestation_data-Gives
        j.attestation_data)
      (λ given_attestation_data h_attestation_data.
        unpack_attestation-Gives j given_attestation_data h_attestation_data)

attestation_back :
    (x : Attestation)
    → IsAttestation x
    → x.aggregation_bits ≢ []
    → unmarshal_attestation (marshal_attestation x) ≡ ok x
unfolding marshal_attestation unmarshal_attestation unpack_attestation
attestation_back x h k = rw (
  nested-written IsAttestationData marshal_attestation_data unmarshal_attestation_data
      attestation_data_back x.attestation_data h.1,
  read_bytes-format_hex (codes "aggregation bits missing")
      (codes "invalid value for beacon block root") x.aggregation_bits h.0 k,
  need-given IsAttestationData (codes "data missing") x.attestation_data h.1,
  read_array-format_hex 95 (codes "signature") x.signature h.2,
)

attestation_lost :
    (x : Attestation)
    → unmarshal_attestation (marshal_attestation x) ≡ ok x
    → x.aggregation_bits ≢ []
unfolding marshal_attestation unmarshal_attestation
attestation_lost x e = λ k. ground (
  arith,
  read_bytes_empty (codes "aggregation bits missing") (codes "invalid value for beacon block root")
      x.aggregation_bits,
)

abbrev pub IsPendingAttestation : PendingAttestation → Type 0
IsPendingAttestation x =
    IsBytes x.aggregation_bits
    × IsGiven IsAttestationData x.pending_attestation_data
    × IsUint x.inclusion_delay
    × IsUint x.proposer_index

unpack_pending_attestation-Gives :
    (j : PendingAttestationJson) (given_pending_attestation_data : Option AttestationData)
    → IsFine IsAttestationData given_pending_attestation_data
    → Gives IsPendingAttestation (unpack_pending_attestation j given_pending_attestation_data)
unfolding unpack_pending_attestation
unpack_pending_attestation-Gives j given_pending_attestation_data h_pending_attestation_data =
    ground (
      arith,
      read_bytes-Gives (codes "aggregation bits missing")
          (codes "invalid value for aggregation bits") j.aggregation_bits,
      need-IsGiven IsAttestationData (codes "data missing") given_pending_attestation_data
          h_pending_attestation_data,
      read_uint-Gives (codes "inclusion delay") j.inclusion_delay,
      read_uint-Gives (codes "proposer index") j.proposer_index,
    )

unmarshal_pending_attestation-Gives :
    (j : PendingAttestationJson) → Gives IsPendingAttestation (unmarshal_pending_attestation j)
unfolding unmarshal_pending_attestation
unmarshal_pending_attestation-Gives j =
    Gives-bind IsPendingAttestation (IsFine IsAttestationData)
      (nested unmarshal_attestation_data j.pending_attestation_data) _
      (nested-IsFine IsAttestationData unmarshal_attestation_data unmarshal_attestation_data-Gives
        j.pending_attestation_data)
      (λ given_pending_attestation_data h_pending_attestation_data.
        unpack_pending_attestation-Gives j given_pending_attestation_data
          h_pending_attestation_data)

pending_attestation_back :
    (x : PendingAttestation)
    → IsPendingAttestation x
    → x.aggregation_bits ≢ []
    → unmarshal_pending_attestation (marshal_pending_attestation x) ≡ ok x
unfolding marshal_pending_attestation unmarshal_pending_attestation unpack_pending_attestation
pending_attestation_back x h k = rw (
  nested-written IsAttestationData marshal_attestation_data unmarshal_attestation_data
      attestation_data_back x.pending_attestation_data h.1,
  read_bytes-format_hex (codes "aggregation bits missing")
      (codes "invalid value for aggregation bits") x.aggregation_bits h.0 k,
  need-given IsAttestationData (codes "data missing") x.pending_attestation_data h.1,
  read_uint-format_uint (codes "inclusion delay") x.inclusion_delay h.2,
  read_uint-format_uint (codes "proposer index") x.proposer_index h.3,
)

pending_attestation_lost :
    (x : PendingAttestation)
    → unmarshal_pending_attestation (marshal_pending_attestation x) ≡ ok x
    → x.aggregation_bits ≢ []
unfolding marshal_pending_attestation unmarshal_pending_attestation
pending_attestation_lost x e = λ k. ground (
  arith,
  read_bytes_empty (codes "aggregation bits missing") (codes "invalid value for aggregation bits")
      x.aggregation_bits,
)

abbrev pub IsSyncCommitteeContribution : SyncCommitteeContribution → Type 0
IsSyncCommitteeContribution x =
    IsUint x.slot
    × IsSized 32 x.beacon_block_root
    × IsUint x.subcommittee_index
    × IsBytes x.aggregation_bits
    × IsSized 96 x.signature

unmarshal_sync_committee_contribution-Gives :
    (j : SyncCommitteeContributionJson)
    → Gives IsSyncCommitteeContribution (unmarshal_sync_committee_contribution j)
unfolding unmarshal_sync_committee_contribution
unmarshal_sync_committee_contribution-Gives j = ground (
  arith,
  read_uint-Gives (codes "slot") j.slot,
  read_array-Gives 32 (codes "beacon block root") j.beacon_block_root,
  read_uint-Gives (codes "subcommittee index") j.subcommittee_index,
  read_bytes-Gives (codes "aggregation bits missing") (codes "invalid value for aggregation bits")
      j.aggregation_bits,
  read_array-Gives 96 (codes "signature") j.signature,
)

sync_committee_contribution_back :
    (x : SyncCommitteeContribution)
    → IsSyncCommitteeContribution x
    → x.aggregation_bits ≢ []
    → unmarshal_sync_committee_contribution (marshal_sync_committee_contribution x) ≡ ok x
unfolding marshal_sync_committee_contribution unmarshal_sync_committee_contribution
sync_committee_contribution_back x h k = rw (
  read_uint-format_uint (codes "slot") x.slot h.0,
  read_array-format_hex 31 (codes "beacon block root") x.beacon_block_root h.1,
  read_uint-format_uint (codes "subcommittee index") x.subcommittee_index h.2,
  read_bytes-format_hex (codes "aggregation bits missing")
      (codes "invalid value for aggregation bits") x.aggregation_bits h.3 k,
  read_array-format_hex 95 (codes "signature") x.signature h.4,
)

sync_committee_contribution_lost :
    (x : SyncCommitteeContribution)
    → unmarshal_sync_committee_contribution (marshal_sync_committee_contribution x) ≡ ok x
    → x.aggregation_bits ≢ []
unfolding marshal_sync_committee_contribution unmarshal_sync_committee_contribution
sync_committee_contribution_lost x e = λ k. ground (
  arith,
  read_bytes_empty (codes "aggregation bits missing") (codes "invalid value for aggregation bits")
      x.aggregation_bits,
)

-- A value with bits, with the data within it.
abbrev pub HasBits : Attestation → Type 0
HasBits x = IsAttestation x × (x.aggregation_bits ≢ [])

abbrev pub HasContributionBits : SyncCommitteeContribution → Type 0
HasContributionBits x = IsSyncCommitteeContribution x × (x.aggregation_bits ≢ [])

pub attestation_kept :
    (x : Attestation) → HasBits x ↔ (unmarshal_attestation (marshal_attestation x) ≡ ok x)
attestation_kept x = (
  λ h. attestation_back x h.0 h.1,
  λ e. (
    Gives-ok IsAttestation (unmarshal_attestation (marshal_attestation x))
        (unmarshal_attestation-Gives (marshal_attestation x)) e,
    attestation_lost x e,
  ),
)

pub sync_committee_contribution_kept :
    (x : SyncCommitteeContribution)
    → HasContributionBits x
      ↔ (unmarshal_sync_committee_contribution (marshal_sync_committee_contribution x) ≡ ok x)
sync_committee_contribution_kept x = (
  λ h. sync_committee_contribution_back x h.0 h.1,
  λ e. (
    Gives-ok IsSyncCommitteeContribution
        (unmarshal_sync_committee_contribution (marshal_sync_committee_contribution x))
        (unmarshal_sync_committee_contribution-Gives (marshal_sync_committee_contribution x)) e,
    sync_committee_contribution_lost x e,
  ),
)

-- A value of an attestation, a pending attestation or a sync committee contribution, with the
-- data within it, is valid and has at least one byte of bits exactly if it is read back from what
-- it is written as in JSON.
pub bits_survive :
    (x0 : Attestation) (x1 : PendingAttestation) (x2 : SyncCommitteeContribution)
    → ((IsAttestation x0 × (x0.aggregation_bits ≢ []))
        ↔ (unmarshal_attestation (marshal_attestation x0) ≡ ok x0))
      × ((IsPendingAttestation x1 × (x1.aggregation_bits ≢ []))
          ↔ (unmarshal_pending_attestation (marshal_pending_attestation x1) ≡ ok x1))
      × ((IsSyncCommitteeContribution x2 × (x2.aggregation_bits ≢ [])) ↔ (
          unmarshal_sync_committee_contribution (marshal_sync_committee_contribution x2) ≡ ok x2))
bits_survive x0 x1 x2 = (
  attestation_kept x0,
  (
    λ h. pending_attestation_back x1 h.0 h.1,
    λ e. (
      Gives-ok IsPendingAttestation (unmarshal_pending_attestation (marshal_pending_attestation x1))
          (unmarshal_pending_attestation-Gives (marshal_pending_attestation x1)) e,
      pending_attestation_lost x1 e,
    ),
  ),
  sync_committee_contribution_kept x2,
)
