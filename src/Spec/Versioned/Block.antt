-- ===== src/Spec/Versioned/Block.antt =====
-- spec/versionedbeaconblock.go: the accessors of a block of any fork. A nil body is followed by
-- `HashTreeRoot` alone, which panics.
use go_eth2_client.Prelude.{
  Text, Slot, Root, Ending, returns, panics, Result, ok, err, Option, none, some, List, [],
}
use go_eth2_client.Spec.Blocks.{
  BeaconBlock, BeaconBlockBody, Attestation, AttesterSlashing, ProposerSlashing,
}
use go_eth2_client.Spec.Versioned.{
  VersionedBeaconBlock, Methods, AllMethods, each_fork, no_block, unknown_version,
}

module _ {Rest : Type 0} where
  abbrev pub block_field :
      {A : Type 0} → (BeaconBlock Rest → A) → Text → Option (BeaconBlock Rest) → Result A
  block_field f name none = err (no_block name)
  block_field f name (some b) = ok (f b)

  abbrev pub some_body :
      {A : Type 0} → (BeaconBlockBody Rest → A) → Text → Option (BeaconBlockBody Rest) → Result A
  some_body f name none = err (no_block name)
  some_body f name (some b) = ok (f b)

  abbrev pub body_field :
      {A : Type 0} → (BeaconBlockBody Rest → A) → Text → Option (BeaconBlock Rest) → Result A
  body_field f name none = err (no_block name)
  body_field f name (some b) = some_body f name b.body

  abbrev pub block_root : Methods Rest → Text → Option (BeaconBlock Rest) → Ending Root
  block_root methods name none = returns (err (no_block name))
  block_root methods name (some b) = methods.hash_block b

  abbrev pub hashed_body : Methods Rest → Option (BeaconBlockBody Rest) → Ending Root
  hashed_body methods none = panics
  hashed_body methods (some b) = methods.hash_body b

  abbrev pub body_root_of : Methods Rest → Text → Option (BeaconBlock Rest) → Ending Root
  body_root_of methods name none = returns (err (no_block name))
  body_root_of methods name (some b) = hashed_body methods b.body

  abbrev printed : Methods Rest → Text → Option (BeaconBlock Rest) → Text
  printed methods name none = []
  printed methods name (some b) = methods.print_block b

module _ (all : AllMethods) where
  unfoldable pub slot : VersionedBeaconBlock → Result Slot
  slot = each_fork all (λ Rest methods. block_field (λ b. b.slot)) (err unknown_version)

  unfoldable pub root : VersionedBeaconBlock → Ending Root
  root = each_fork all (λ Rest methods. block_root methods) (returns (err unknown_version))

  unfoldable pub body_root : VersionedBeaconBlock → Ending Root
  body_root = each_fork all (λ Rest methods. body_root_of methods) (returns (err unknown_version))

  unfoldable pub parent_root : VersionedBeaconBlock → Result Root
  parent_root =
      each_fork all (λ Rest methods. block_field (λ b. b.parent_root)) (err unknown_version)

  unfoldable pub state_root : VersionedBeaconBlock → Result Root
  state_root = each_fork all (λ Rest methods. block_field (λ b. b.state_root)) (err unknown_version)

  unfoldable pub attestations : VersionedBeaconBlock → Result (List (Option Attestation))
  attestations =
      each_fork all (λ Rest methods. body_field (λ b. b.attestations)) (err unknown_version)

  unfoldable pub attester_slashings : VersionedBeaconBlock → Result (List (Option AttesterSlashing))
  attester_slashings =
      each_fork all (λ Rest methods. body_field (λ b. b.attester_slashings)) (err unknown_version)

  unfoldable pub proposer_slashings : VersionedBeaconBlock → Result (List (Option ProposerSlashing))
  proposer_slashings =
      each_fork all (λ Rest methods. body_field (λ b. b.proposer_slashings)) (err unknown_version)

  unfoldable pub block_string : VersionedBeaconBlock → Text
  block_string = each_fork all (λ Rest methods. printed methods) unknown_version
