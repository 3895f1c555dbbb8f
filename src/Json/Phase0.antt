-- ===== src/Json/Phase0.antt =====
-- The JSON of the types of spec/phase0/ that nodes vote and sign with.
use go_eth2_client.Codec.Fields.Laws.{Survives, survives}
use go_eth2_client.Spec.Blocks.{
  Checkpoint, AttestationData, IndexedAttestation, AttesterSlashing, BeaconBlockHeader,
  SignedBeaconBlockHeader, ProposerSlashing, VoluntaryExit, SignedVoluntaryExit,
}
use go_eth2_client.Json.Attestations.{
  marshal_checkpoint, unmarshal_checkpoint, marshal_attestation_data, unmarshal_attestation_data,
  marshal_indexed_attestation, unmarshal_indexed_attestation, marshal_attester_slashing,
  unmarshal_attester_slashing,
}
use go_eth2_client.Json.Headers.{
  marshal_beacon_block_header, unmarshal_beacon_block_header, marshal_signed_beacon_block_header,
  unmarshal_signed_beacon_block_header, marshal_proposer_slashing, unmarshal_proposer_slashing,
  marshal_voluntary_exit, unmarshal_voluntary_exit, marshal_signed_voluntary_exit,
  unmarshal_signed_voluntary_exit,
}
use go_eth2_client.Json.Attestations.Kept.{
  attestation_data_back, attester_slashing_back, checkpoint_back, indexed_attestation_back,
  unmarshal_attestation_data-Gives, unmarshal_attester_slashing-Gives, unmarshal_checkpoint-Gives,
  unmarshal_indexed_attestation-Gives, IsCheckpoint, IsAttestationData, IsIndexedAttestation,
  IsAttesterSlashing,
}
use go_eth2_client.Json.Headers.Kept.{
  beacon_block_header_back, proposer_slashing_back, signed_beacon_block_header_back,
  signed_voluntary_exit_back, unmarshal_beacon_block_header-Gives,
  unmarshal_proposer_slashing-Gives, unmarshal_signed_beacon_block_header-Gives,
  unmarshal_signed_voluntary_exit-Gives, unmarshal_voluntary_exit-Gives, voluntary_exit_back,
  IsBeaconBlockHeader, IsSignedBeaconBlockHeader, IsProposerSlashing, IsVoluntaryExit,
  IsSignedVoluntaryExit,
}

-- A value of a checkpoint, attestation data, an indexed attestation, an attester slashing, a
-- block header or a signed one, a proposer slashing, a voluntary exit or a signed one, with the
-- values within it, is valid exactly if it is read back from what it is written as in JSON. It is
-- valid exactly if it is read from something.
pub phase0_survive :
    (x0 : Checkpoint) (x1 : AttestationData) (x2 : IndexedAttestation) (x3 : AttesterSlashing)
    (x4 : BeaconBlockHeader) (x5 : SignedBeaconBlockHeader) (x6 : ProposerSlashing)
    (x7 : VoluntaryExit) (x8 : SignedVoluntaryExit)
    → Survives marshal_checkpoint unmarshal_checkpoint IsCheckpoint x0
      × Survives marshal_attestation_data unmarshal_attestation_data IsAttestationData x1
      × Survives marshal_indexed_attestation unmarshal_indexed_attestation IsIndexedAttestation x2
      × Survives marshal_attester_slashing unmarshal_attester_slashing IsAttesterSlashing x3
      × Survives marshal_beacon_block_header unmarshal_beacon_block_header IsBeaconBlockHeader x4
      × Survives marshal_signed_beacon_block_header unmarshal_signed_beacon_block_header
          IsSignedBeaconBlockHeader x5
      × Survives marshal_proposer_slashing unmarshal_proposer_slashing IsProposerSlashing x6
      × Survives marshal_voluntary_exit unmarshal_voluntary_exit IsVoluntaryExit x7
      × Survives marshal_signed_voluntary_exit unmarshal_signed_voluntary_exit IsSignedVoluntaryExit
          x8
phase0_survive x0 x1 x2 x3 x4 x5 x6 x7 x8 = (
  survives marshal_checkpoint unmarshal_checkpoint IsCheckpoint unmarshal_checkpoint-Gives
      checkpoint_back x0,
  survives marshal_attestation_data unmarshal_attestation_data IsAttestationData
      unmarshal_attestation_data-Gives attestation_data_back x1,
  survives marshal_indexed_attestation unmarshal_indexed_attestation IsIndexedAttestation
      unmarshal_indexed_attestation-Gives indexed_attestation_back x2,
  survives marshal_attester_slashing unmarshal_attester_slashing IsAttesterSlashing
      unmarshal_attester_slashing-Gives attester_slashing_back x3,
  survives marshal_beacon_block_header unmarshal_beacon_block_header IsBeaconBlockHeader
      unmarshal_beacon_block_header-Gives beacon_block_header_back x4,
  survives marshal_signed_beacon_block_header unmarshal_signed_beacon_block_header
      IsSignedBeaconBlockHeader unmarshal_signed_beacon_block_header-Gives
      signed_beacon_block_header_back x5,
  survives marshal_proposer_slashing unmarshal_proposer_slashing IsProposerSlashing
      unmarshal_proposer_slashing-Gives proposer_slashing_back x6,
  survives marshal_voluntary_exit unmarshal_voluntary_exit IsVoluntaryExit
      unmarshal_voluntary_exit-Gives voluntary_exit_back x7,
  survives marshal_signed_voluntary_exit unmarshal_signed_voluntary_exit IsSignedVoluntaryExit
      unmarshal_signed_voluntary_exit-Gives signed_voluntary_exit_back x8,
)
