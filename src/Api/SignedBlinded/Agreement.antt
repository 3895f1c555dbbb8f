-- ===== src/Api/SignedBlinded/Agreement.antt =====
-- A signed blinded block and the block that it signs, as their accessors show them.
use go_eth2_client.Prelude.{
  Text, codes, returns, Result, err, Bool, false, Option, none, ◌≡◌, refl, ap, ap₂, ◌∙◌,
}
use go_eth2_client.Spec.DataVersion.{by_version}
use go_eth2_client.Spec.Blocks.{BeaconBlock}
use go_eth2_client.Spec.Versioned.{Methods, no_block}
use go_eth2_client.Spec.Versioned.Block.{block_field, body_field}
use go_eth2_client.Spec.Versioned.Signed.{checked, unchecked, of_block}
use go_eth2_client.Spec.Versioned.Switches.{
  message_of, has_no_message, panics_if, by_version-agree, by_version-map,
}
use go_eth2_client.Spec.Versioned.Agreement.{root_same, body_root_same, field_same, checked_same}
use go_eth2_client.Api.Blinded
use go_eth2_client.Api.Blinded.{
  BlindedBellatrixRest, BlindedCapellaRest, VersionedBlindedBeaconBlock, each_blinded,
  unsupported_version,
}
use go_eth2_client.Api.SignedBlinded
use go_eth2_client.Api.SignedBlinded.{VersionedSignedBlindedBeaconBlock, each_signed}

-- The blinded block that is signed, and whether the version's pointer has no message.
abbrev pub blinded_of : VersionedSignedBlindedBeaconBlock → VersionedBlindedBeaconBlock
blinded_of v = record {
  version = v.version;
  bellatrix_data = message_of v.bellatrix_data;
  capella_data = message_of v.capella_data;
}

abbrev pub lacks_message : VersionedSignedBlindedBeaconBlock → Bool
lacks_message v =
    by_version v.version false false (has_no_message _ v.bellatrix_data)
      (has_no_message _ v.capella_data) false

module _ {A : Type 0} (v : VersionedSignedBlindedBeaconBlock) where
  each_checked :
      (f : (Rest : Type 0) → Text → Option (BeaconBlock Rest) → Result A)
      → ((Rest : Type 0) (t : Text) → f Rest t none ≡ err (no_block t))
      → each_signed (λ Rest. checked (f Rest)) (err unsupported_version) v
        ≡ each_blinded f (err unsupported_version) (blinded_of v)
  each_checked f e =
      ap₂
        (λ b c.
          by_version v.version (err unsupported_version) (err unsupported_version) b c
            (err unsupported_version))
        (checked_same (codes "bellatrix") (f _) (e _ _) v.bellatrix_data)
        (checked_same (codes "capella") (f _) (e _ _) v.capella_data)

  each_unchecked :
      (f : (Rest : Type 0) → BeaconBlock Rest → A)
      → each_signed (λ Rest. unchecked (of_block (f Rest))) (returns (err unsupported_version)) v
        ≡ panics_if (lacks_message v) (
            returns (
              each_blinded (λ Rest. block_field (f Rest)) (err unsupported_version) (blinded_of v)))
  each_unchecked f =
      by_version-agree v.version _ _ _ _ _ _ _ _ _ _ _ _ _ refl refl
        (field_same (codes "bellatrix") (f _) v.bellatrix_data)
        (field_same (codes "capella") (f _) v.capella_data)
      ∙ ap (panics_if (lacks_message v))
          (by_version-map returns v.version _ _ _ _ (err unsupported_version))

-- For any version and any pointers, `Slot` and `Attestations` of a versioned signed blinded block
-- return what they do for the versioned blinded block that it signs, errors included. The parent
-- root, the state root, the root and the body root end likewise, but that they panic where the
-- block of the version is there without a message.
pub signed_blinded_agree :
    (bellatrix : Methods BlindedBellatrixRest) (capella : Methods BlindedCapellaRest)
    (v : VersionedSignedBlindedBeaconBlock)
    → (SignedBlinded.slot v ≡ Blinded.slot (blinded_of v))
      × (SignedBlinded.attestations v ≡ Blinded.attestations (blinded_of v))
      × (SignedBlinded.parent_root v
          ≡ panics_if (lacks_message v) (returns (Blinded.parent_root (blinded_of v))))
      × (SignedBlinded.state_root v
          ≡ panics_if (lacks_message v) (returns (Blinded.state_root (blinded_of v))))
      × (SignedBlinded.root bellatrix capella v
          ≡ panics_if (lacks_message v) (Blinded.root bellatrix capella (blinded_of v)))
      × (SignedBlinded.body_root bellatrix capella v
          ≡ panics_if (lacks_message v) (Blinded.body_root bellatrix capella (blinded_of v)))
unfolding SignedBlinded.slot SignedBlinded.attestations SignedBlinded.parent_root
    SignedBlinded.state_root SignedBlinded.root SignedBlinded.body_root Blinded.slot
    Blinded.attestations Blinded.parent_root Blinded.state_root Blinded.root Blinded.body_root
signed_blinded_agree bellatrix capella v = (
  each_checked v (λ Rest. block_field (λ b. b.slot)) (λ Rest t. refl),
  each_checked v (λ Rest. body_field (λ b. b.attestations)) (λ Rest t. refl),
  each_unchecked v (λ Rest b. b.parent_root),
  each_unchecked v (λ Rest b. b.state_root),
  by_version-agree v.version _ _ _ _ (returns (err unsupported_version)) _ _ _ _ _ _ _ _ refl refl
      (root_same bellatrix (codes "bellatrix") v.bellatrix_data)
      (root_same capella (codes "capella") v.capella_data),
  by_version-agree v.version _ _ _ _ (returns (err unsupported_version)) _ _ _ _ _ _ _ _ refl refl
      (body_root_same bellatrix (codes "bellatrix") v.bellatrix_data)
      (body_root_same capella (codes "capella") v.capella_data),
)
