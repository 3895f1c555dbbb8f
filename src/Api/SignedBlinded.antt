-- ===== src/Api/SignedBlinded.antt =====
-- api/versionedsignedblindedbeaconblock.go. `Slot` and `Attestations` look whether the message is
-- there, the others follow its pointer as it is.
pub mod Agreement
pub mod Tests
use go_eth2_client.Prelude.{
  Error, Text, Slot, Root, codes, Ending, returns, Result, err, Option, List,
}
use go_eth2_client.Spec.DataVersion.{DataVersion, by_version}
use go_eth2_client.Spec.Blocks.{SignedBeaconBlock, Attestation, AttesterSlashing, ProposerSlashing}
use go_eth2_client.Spec.Versioned.{Methods}
use go_eth2_client.Spec.Versioned.Block.{block_field, body_field, hashed_body}
use go_eth2_client.Spec.Versioned.Signed.{checked, unchecked, of_block, of_body}
use go_eth2_client.Api.Blinded.{BlindedBellatrixRest, BlindedCapellaRest, unsupported_version}

pub record VersionedSignedBlindedBeaconBlock : Type 0 where
  pub version : DataVersion
  pub bellatrix_data : Option (SignedBeaconBlock BlindedBellatrixRest)
  pub capella_data : Option (SignedBeaconBlock BlindedCapellaRest)

-- A `switch` on the version whose branches differ by the fork alone.
abbrev pub each_signed :
    {R : Type 0}
    → ((Rest : Type 0) → Text → Option (SignedBeaconBlock Rest) → R)
    → R
    → VersionedSignedBlindedBeaconBlock
    → R
each_signed f other v =
    by_version v.version other other (f _ (codes "bellatrix") v.bellatrix_data)
      (f _ (codes "capella") v.capella_data) other

unfoldable pub slot : VersionedSignedBlindedBeaconBlock → Result Slot
slot = each_signed (λ Rest. checked (block_field (λ b. b.slot))) (err unsupported_version)

unfoldable pub attestations : VersionedSignedBlindedBeaconBlock → Result (List (Option Attestation))
attestations =
    each_signed (λ Rest. checked (body_field (λ b. b.attestations))) (err unsupported_version)

unfoldable pub parent_root : VersionedSignedBlindedBeaconBlock → Ending Root
parent_root =
    each_signed (λ Rest. unchecked (of_block (λ b. b.parent_root)))
      (returns (err unsupported_version))

unfoldable pub state_root : VersionedSignedBlindedBeaconBlock → Ending Root
state_root =
    each_signed (λ Rest. unchecked (of_block (λ b. b.state_root)))
      (returns (err unsupported_version))

abbrev unknown_version : Error
unknown_version = codes "unknown version"

unfoldable pub attester_slashings :
    VersionedSignedBlindedBeaconBlock → Ending (List (Option AttesterSlashing))
attester_slashings =
    each_signed (λ Rest. unchecked (of_body (λ b. b.attester_slashings)))
      (returns (err unknown_version))

unfoldable pub proposer_slashings :
    VersionedSignedBlindedBeaconBlock → Ending (List (Option ProposerSlashing))
proposer_slashings =
    each_signed (λ Rest. unchecked (of_body (λ b. b.proposer_slashings)))
      (returns (err unknown_version))

module _ (bellatrix : Methods BlindedBellatrixRest) (capella : Methods BlindedCapellaRest) where
  unfoldable pub root : VersionedSignedBlindedBeaconBlock → Ending Root
  root v =
      by_version v.version (returns (err unsupported_version)) (returns (err unsupported_version))
        (unchecked bellatrix.hash_block (codes "bellatrix") v.bellatrix_data)
        (unchecked capella.hash_block (codes "capella") v.capella_data)
        (returns (err unsupported_version))

  unfoldable pub body_root : VersionedSignedBlindedBeaconBlock → Ending Root
  body_root v =
      by_version v.version (returns (err unsupported_version)) (returns (err unsupported_version))
        (unchecked (λ b. hashed_body bellatrix b.body) (codes "bellatrix") v.bellatrix_data)
        (unchecked (λ b. hashed_body capella b.body) (codes "capella") v.capella_data)
        (returns (err unsupported_version))
