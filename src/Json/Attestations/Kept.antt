-- ===== src/Json/Attestations/Kept.antt =====
-- What is written as JSON is read back, and what is read is valid.
use go_eth2_client.Codec.Fields.{nested}
use go_eth2_client.Prelude.{Option, Gives-bind, codes, ok, ◌≡◌, Gives, arith, All}
use go_eth2_client.Codec.Fields.Laws.{
  IsGiven, IsFine, need-IsGiven, need-given, nested-IsFine, nested-written, IsSized, IsUint,
  read_array-Gives, read_array-format_hex, read_uint-Gives, read_uint-format_uint, read_uints-Gives,
  read_uints-map,
}
use go_eth2_client.Spec.Blocks.{AttestationData, AttesterSlashing, Checkpoint, IndexedAttestation}
use go_eth2_client.Json.Attestations.{
  CheckpointJson, marshal_checkpoint, unmarshal_checkpoint, AttestationDataJson,
  marshal_attestation_data, unmarshal_attestation_data, unpack_attestation_data,
  IndexedAttestationJson, marshal_indexed_attestation, unmarshal_indexed_attestation,
  unpack_indexed_attestation, AttesterSlashingJson, marshal_attester_slashing,
  unmarshal_attester_slashing, unpack_attester_slashing,
}

abbrev pub IsCheckpoint : Checkpoint → Type 0
IsCheckpoint x = IsUint x.epoch × IsSized 32 x.root

pub unmarshal_checkpoint-Gives : (j : CheckpointJson) → Gives IsCheckpoint (unmarshal_checkpoint j)
unfolding unmarshal_checkpoint
unmarshal_checkpoint-Gives j =
    ground
      (arith, read_uint-Gives (codes "epoch") j.epoch, read_array-Gives 32 (codes "root") j.root)

pub checkpoint_back :
    (x : Checkpoint) → IsCheckpoint x → unmarshal_checkpoint (marshal_checkpoint x) ≡ ok x
unfolding marshal_checkpoint unmarshal_checkpoint
checkpoint_back x h = rw (
  read_uint-format_uint (codes "epoch") x.epoch h.0,
  read_array-format_hex 31 (codes "root") x.root h.1,
)

abbrev pub IsAttestationData : AttestationData → Type 0
IsAttestationData x =
    IsUint x.slot
    × IsUint x.index
    × IsSized 32 x.beacon_block_root
    × IsGiven IsCheckpoint x.source
    × IsGiven IsCheckpoint x.target

unpack_attestation_data-Gives :
    (j : AttestationDataJson) (given_source : Option Checkpoint) (given_target : Option Checkpoint)
    → IsFine IsCheckpoint given_source
    → IsFine IsCheckpoint given_target
    → Gives IsAttestationData (unpack_attestation_data j given_source given_target)
unfolding unpack_attestation_data
unpack_attestation_data-Gives j given_source given_target h_source h_target = ground (
  arith,
  read_uint-Gives (codes "slot") j.slot,
  read_uint-Gives (codes "index") j.index,
  read_array-Gives 32 (codes "beacon block root") j.beacon_block_root,
  need-IsGiven IsCheckpoint (codes "source missing") given_source h_source,
  need-IsGiven IsCheckpoint (codes "target missing") given_target h_target,
)

pub unmarshal_attestation_data-Gives :
    (j : AttestationDataJson) → Gives IsAttestationData (unmarshal_attestation_data j)
unfolding unmarshal_attestation_data
unmarshal_attestation_data-Gives j =
    Gives-bind IsAttestationData (IsFine IsCheckpoint) (nested unmarshal_checkpoint j.source) _
      (nested-IsFine IsCheckpoint unmarshal_checkpoint unmarshal_checkpoint-Gives j.source)
      (λ given_source h_source.
        Gives-bind IsAttestationData (IsFine IsCheckpoint) (nested unmarshal_checkpoint j.target) _
          (nested-IsFine IsCheckpoint unmarshal_checkpoint unmarshal_checkpoint-Gives j.target)
          (λ given_target h_target.
            unpack_attestation_data-Gives j given_source given_target h_source h_target))

pub attestation_data_back :
    (x : AttestationData)
    → IsAttestationData x
    → unmarshal_attestation_data (marshal_attestation_data x) ≡ ok x
unfolding marshal_attestation_data unmarshal_attestation_data unpack_attestation_data
attestation_data_back x h = rw (
  nested-written IsCheckpoint marshal_checkpoint unmarshal_checkpoint checkpoint_back x.source h.3,
  nested-written IsCheckpoint marshal_checkpoint unmarshal_checkpoint checkpoint_back x.target h.4,
  read_uint-format_uint (codes "slot") x.slot h.0,
  read_uint-format_uint (codes "index") x.index h.1,
  read_array-format_hex 31 (codes "beacon block root") x.beacon_block_root h.2,
  need-given IsCheckpoint (codes "source missing") x.source h.3,
  need-given IsCheckpoint (codes "target missing") x.target h.4,
)

abbrev pub IsIndexedAttestation : IndexedAttestation → Type 0
IsIndexedAttestation x =
    All IsUint x.attesting_indices
    × IsGiven IsAttestationData x.attestation_data
    × IsSized 96 x.signature

unpack_indexed_attestation-Gives :
    (j : IndexedAttestationJson) (given_attestation_data : Option AttestationData)
    → IsFine IsAttestationData given_attestation_data
    → Gives IsIndexedAttestation (unpack_indexed_attestation j given_attestation_data)
unfolding unpack_indexed_attestation
unpack_indexed_attestation-Gives j given_attestation_data h_attestation_data = ground (
  arith,
  read_uints-Gives (codes "failed to parse attesting index") j.attesting_indices,
  need-IsGiven IsAttestationData (codes "data missing") given_attestation_data h_attestation_data,
  read_array-Gives 96 (codes "signature") j.signature,
)

pub unmarshal_indexed_attestation-Gives :
    (j : IndexedAttestationJson) → Gives IsIndexedAttestation (unmarshal_indexed_attestation j)
unfolding unmarshal_indexed_attestation
unmarshal_indexed_attestation-Gives j =
    Gives-bind IsIndexedAttestation (IsFine IsAttestationData)
      (nested unmarshal_attestation_data j.attestation_data) _
      (nested-IsFine IsAttestationData unmarshal_attestation_data unmarshal_attestation_data-Gives
        j.attestation_data)
      (λ given_attestation_data h_attestation_data.
        unpack_indexed_attestation-Gives j given_attestation_data h_attestation_data)

pub indexed_attestation_back :
    (x : IndexedAttestation)
    → IsIndexedAttestation x
    → unmarshal_indexed_attestation (marshal_indexed_attestation x) ≡ ok x
unfolding marshal_indexed_attestation unmarshal_indexed_attestation unpack_indexed_attestation
indexed_attestation_back x h = rw (
  nested-written IsAttestationData marshal_attestation_data unmarshal_attestation_data
      attestation_data_back x.attestation_data h.1,
  read_uints-map (codes "failed to parse attesting index") x.attesting_indices h.0,
  need-given IsAttestationData (codes "data missing") x.attestation_data h.1,
  read_array-format_hex 95 (codes "signature") x.signature h.2,
)

abbrev pub IsAttesterSlashing : AttesterSlashing → Type 0
IsAttesterSlashing x =
    IsGiven IsIndexedAttestation x.attestation1 × IsGiven IsIndexedAttestation x.attestation2

unpack_attester_slashing-Gives :
    (j : AttesterSlashingJson) (given_attestation1 : Option IndexedAttestation)
    (given_attestation2 : Option IndexedAttestation)
    → IsFine IsIndexedAttestation given_attestation1
    → IsFine IsIndexedAttestation given_attestation2
    → Gives IsAttesterSlashing (unpack_attester_slashing j given_attestation1 given_attestation2)
unfolding unpack_attester_slashing
unpack_attester_slashing-Gives j given_attestation1 given_attestation2 h_attestation1
      h_attestation2 =
    ground (
      arith,
      need-IsGiven IsIndexedAttestation (codes "attestation 1 missing") given_attestation1
          h_attestation1,
      need-IsGiven IsIndexedAttestation (codes "attestation 2 missing") given_attestation2
          h_attestation2,
    )

pub unmarshal_attester_slashing-Gives :
    (j : AttesterSlashingJson) → Gives IsAttesterSlashing (unmarshal_attester_slashing j)
unfolding unmarshal_attester_slashing
unmarshal_attester_slashing-Gives j =
    Gives-bind IsAttesterSlashing (IsFine IsIndexedAttestation)
      (nested unmarshal_indexed_attestation j.attestation1) _
      (nested-IsFine IsIndexedAttestation unmarshal_indexed_attestation
        unmarshal_indexed_attestation-Gives j.attestation1)
      (λ given_attestation1 h_attestation1.
        Gives-bind IsAttesterSlashing (IsFine IsIndexedAttestation)
          (nested unmarshal_indexed_attestation j.attestation2) _
          (nested-IsFine IsIndexedAttestation unmarshal_indexed_attestation
            unmarshal_indexed_attestation-Gives j.attestation2)
          (λ given_attestation2 h_attestation2.
            unpack_attester_slashing-Gives j given_attestation1 given_attestation2 h_attestation1
              h_attestation2))

pub attester_slashing_back :
    (x : AttesterSlashing)
    → IsAttesterSlashing x
    → unmarshal_attester_slashing (marshal_attester_slashing x) ≡ ok x
unfolding marshal_attester_slashing unmarshal_attester_slashing unpack_attester_slashing
attester_slashing_back x h = rw (
  nested-written IsIndexedAttestation marshal_indexed_attestation unmarshal_indexed_attestation
      indexed_attestation_back x.attestation1 h.0,
  nested-written IsIndexedAttestation marshal_indexed_attestation unmarshal_indexed_attestation
      indexed_attestation_back x.attestation2 h.1,
  need-given IsIndexedAttestation (codes "attestation 1 missing") x.attestation1 h.0,
  need-given IsIndexedAttestation (codes "attestation 2 missing") x.attestation2 h.1,
)
