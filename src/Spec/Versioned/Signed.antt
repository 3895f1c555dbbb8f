-- ===== src/Spec/Versioned/Signed.antt =====
-- spec/versionedsignedbeaconblock.go: the accessors of a signed block of any fork. `Slot` and
-- `Attestations` look whether the message is there, the others follow its pointer as it is.
use go_eth2_client.Prelude.{
  Text, Slot, Root, Ending, returns, panics, Result, ok, err, Option, none, some, List, [],
}
use go_eth2_client.Spec.Blocks.{
  BeaconBlock, BeaconBlockBody, SignedBeaconBlock, Attestation, AttesterSlashing, ProposerSlashing,
}
use go_eth2_client.Spec.Versioned.{
  VersionedSignedBeaconBlock, Methods, AllMethods, each_fork, no_block, unknown_version,
}
use go_eth2_client.Spec.Versioned.Block.{block_field, body_field, hashed_body}

-- A pointer that is followed.
abbrev pub follow : {A B : Type 0} → (A → Ending B) → Option A → Ending B
follow f none = panics
follow f (some a) = f a

module _ {Rest : Type 0} where
  abbrev pub checked :
      {A : Type 0}
      → (Text → Option (BeaconBlock Rest) → Result A)
      → Text
      → Option (SignedBeaconBlock Rest)
      → Result A
  checked f name none = err (no_block name)
  checked f name (some s) = f name s.message

  abbrev pub unchecked :
      {A : Type 0}
      → (BeaconBlock Rest → Ending A)
      → Text
      → Option (SignedBeaconBlock Rest)
      → Ending A
  unchecked f name none = returns (err (no_block name))
  unchecked f name (some s) = follow f s.message

  abbrev pub of_block : {A : Type 0} → (BeaconBlock Rest → A) → BeaconBlock Rest → Ending A
  of_block f b = returns (ok (f b))

  abbrev pub of_body : {A : Type 0} → (BeaconBlockBody Rest → A) → BeaconBlock Rest → Ending A
  of_body f b = follow (λ body. returns (ok (f body))) b.body

  abbrev printed : Methods Rest → Text → Option (SignedBeaconBlock Rest) → Text
  printed methods name none = []
  printed methods name (some s) = methods.print_signed s

module _ (all : AllMethods) where
  unfoldable pub slot : VersionedSignedBeaconBlock → Result Slot
  slot = each_fork all (λ Rest methods. checked (block_field (λ b. b.slot))) (err unknown_version)

  unfoldable pub attestations : VersionedSignedBeaconBlock → Result (List (Option Attestation))
  attestations =
      each_fork all (λ Rest methods. checked (body_field (λ b. b.attestations)))
        (err unknown_version)

  unfoldable pub root : VersionedSignedBeaconBlock → Ending Root
  root =
      each_fork all (λ Rest methods. unchecked methods.hash_block) (returns (err unknown_version))

  unfoldable pub body_root : VersionedSignedBeaconBlock → Ending Root
  body_root =
      each_fork all (λ Rest methods. unchecked (λ b. hashed_body methods b.body))
        (returns (err unknown_version))

  unfoldable pub parent_root : VersionedSignedBeaconBlock → Ending Root
  parent_root =
      each_fork all (λ Rest methods. unchecked (of_block (λ b. b.parent_root)))
        (returns (err unknown_version))

  unfoldable pub state_root : VersionedSignedBeaconBlock → Ending Root
  state_root =
      each_fork all (λ Rest methods. unchecked (of_block (λ b. b.state_root)))
        (returns (err unknown_version))

  unfoldable pub attester_slashings :
      VersionedSignedBeaconBlock → Ending (List (Option AttesterSlashing))
  attester_slashings =
      each_fork all (λ Rest methods. unchecked (of_body (λ b. b.attester_slashings)))
        (returns (err unknown_version))

  unfoldable pub proposer_slashings :
      VersionedSignedBeaconBlock → Ending (List (Option ProposerSlashing))
  proposer_slashings =
      each_fork all (λ Rest methods. unchecked (of_body (λ b. b.proposer_slashings)))
        (returns (err unknown_version))

  unfoldable pub signed_string : VersionedSignedBeaconBlock → Text
  signed_string = each_fork all (λ Rest methods. printed methods) unknown_version
