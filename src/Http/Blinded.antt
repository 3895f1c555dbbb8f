-- ===== src/Http/Blinded.antt =====
-- http/blindedbeaconblockproposal.go: a blinded block that is proposed.
pub mod Proposed
pub mod Tests
use go_eth2_client.Prelude.{
  Ending, Text, Bytes, Slot, BlsSignature, codes, Result, Option, none, some, ◌++◌,
}
use go_eth2_client.Codec.Decimal.{format_uint}
use go_eth2_client.Codec.Hex.{format_hex}
use go_eth2_client.Spec.DataVersion.{DataVersion, by_version, data_version_string}
use go_eth2_client.Spec.Blocks.{BeaconBlock}
use go_eth2_client.Api.Blinded.{
  BlindedBellatrixRest, BlindedCapellaRest, VersionedBlindedBeaconBlock,
}
use go_eth2_client.Http.Service.{Server, M, fail, lift, or_wrap, ◌>>=◌}
use go_eth2_client.Http.Static.{request}
use go_eth2_client.Http.Spec.{copied}
use go_eth2_client.Http.Blocks.{proposal_of}

-- The decoders of the field `data` for each fork: none if it is absent or null.
pub record BlindedDecoders : Type 0 where
  pub bellatrix_decoder : Bytes → Ending (Option (BeaconBlock BlindedBellatrixRest))
  pub capella_decoder : Bytes → Ending (Option (BeaconBlock BlindedCapellaRest))

abbrev pub as_bellatrix : Option (BeaconBlock BlindedBellatrixRest) → VersionedBlindedBeaconBlock
as_bellatrix b = record { version = 2; bellatrix_data = b; capella_data = none }

abbrev pub as_capella : Option (BeaconBlock BlindedCapellaRest) → VersionedBlindedBeaconBlock
as_capella b = record { version = 3; bellatrix_data = none; capella_data = b }

abbrev pub blinded : Text
blinded = codes "blinded beacon block proposal"

module _ (server : Server) (response_version : Bytes → Result DataVersion)
    (decoders : BlindedDecoders) where
  open server use {World}
  open decoders use {bellatrix_decoder, capella_decoder}

  module _ (slot : Slot) (randao_reveal : BlsSignature) (graffiti : Bytes) where
    abbrev pub requested : M World Bytes
    requested =
        request server
          (codes "/eth/v1/validator/blinded_blocks/"
            ++ format_uint slot
            ++ codes "?randao_reveal="
            ++ format_hex randao_reveal
            ++ codes "&graffiti="
            ++ format_hex graffiti)
          (codes "failed to request blinded beacon block proposal")
          (codes "blinded beacon block proposal response empty")

    abbrev pub blinded_by_version : Bytes → DataVersion → M World VersionedBlindedBeaconBlock
    blinded_by_version body version =
        let unsupported =
          fail (codes "unsupported block version " ++ data_version_string version) in
        by_version version unsupported unsupported
          (proposal_of server response_version slot randao_reveal graffiti blinded
            (codes "failed to parse bellatrix blinded beacon block proposal") as_bellatrix
            (bellatrix_decoder body))
          (proposal_of server response_version slot randao_reveal graffiti blinded
            (codes "failed to parse capella blinded beacon block proposal") as_capella
            (capella_decoder body))
          unsupported

    abbrev pub blinded_data : Bytes → M World VersionedBlindedBeaconBlock
    blinded_data body =
        or_wrap (codes "failed to parse response") (lift (response_version body))
        >>= blinded_by_version body

    unfoldable pub blinded_proposal : M World VersionedBlindedBeaconBlock
    blinded_proposal = requested >>= blinded_data

  -- The graffiti is cut or filled to 32 bytes.
  unfoldable pub blinded_beacon_block_proposal :
      Slot → BlsSignature → Bytes → M World VersionedBlindedBeaconBlock
  unfolding blinded_proposal
  blinded_beacon_block_proposal slot randao_reveal graffiti =
      blinded_proposal slot randao_reveal (copied 32 graffiti)
