-- ===== src/Spec/Versioned/Agreement.antt =====
-- A signed block and the block that it signs, as their accessors show them.
use go_eth2_client.Prelude.{
  Text, codes, returns, Result, ok, err, Option, none, some, ◌≡◌, refl, sym,
}
use go_eth2_client.Spec.Blocks.{BeaconBlock, BeaconBlockBody, SignedBeaconBlock}
use go_eth2_client.Spec.Versioned.{
  VersionedSignedBeaconBlock, Methods, AllMethods, each_fork, is_none, no_block, unknown_version,
}
use go_eth2_client.Spec.Versioned.Block
use go_eth2_client.Spec.Versioned.Signed
use go_eth2_client.Spec.Versioned.Block.{
  block_field, body_field, some_body, block_root, hashed_body, body_root_of,
}
use go_eth2_client.Spec.Versioned.Signed.{follow, checked, unchecked, of_block, of_body}
use go_eth2_client.Spec.Versioned.Switches.{
  message_of, unsigned, has_no_message, no_body, has_no_body, lacks, panics_if, each_fork-agree,
  each_fork_returns,
}

-- The sameness on each fork.
module _ {Rest : Type 0} (m : Methods Rest) (t : Text) where
  pub root_same :
      (s : Option (SignedBeaconBlock Rest))
      → unchecked m.hash_block t s
        ≡ panics_if (has_no_message Rest s) (block_root m t (message_of s))
  root_same none = refl
  root_same (some s) =
      elim s.message as (λ b. follow m.hash_block b ≡ panics_if (is_none b) (block_root m t b)) [
        | none ↦ refl
        | some b ↦ refl
      ]

  pub body_root_same :
      (s : Option (SignedBeaconBlock Rest))
      → unchecked (λ b. hashed_body m b.body) t s
        ≡ panics_if (has_no_message Rest s) (body_root_of m t (message_of s))
  body_root_same none = refl
  body_root_same (some s) =
      elim s.message
        as (λ b.
          follow (λ b. hashed_body m b.body) b ≡ panics_if (is_none b) (body_root_of m t b)) [
            | none ↦ refl
            | some b ↦ refl
          ]

module _ {Rest A : Type 0} (t : Text) where
  pub field_same :
      (f : BeaconBlock Rest → A) (s : Option (SignedBeaconBlock Rest))
      → unchecked (of_block f) t s
        ≡ panics_if (has_no_message Rest s) (returns (block_field f t (message_of s)))
  field_same f none = refl
  field_same f (some s) =
      elim s.message
        as (λ b. follow (of_block f) b ≡ panics_if (is_none b) (returns (block_field f t b))) [
          | none ↦ refl
          | some b ↦ refl
        ]

  some_body_same :
      (f : BeaconBlockBody Rest → A) (b : Option (BeaconBlockBody Rest))
      → follow (λ body. returns (ok (f body))) b ≡ panics_if (is_none b) (returns (some_body f t b))
  some_body_same f none = refl
  some_body_same f (some b) = refl

  body_same :
      (f : BeaconBlockBody Rest → A) (s : Option (SignedBeaconBlock Rest))
      → unchecked (of_body f) t s
        ≡ panics_if (has_no_body Rest s) (returns (body_field f t (message_of s)))
  body_same f none = refl
  body_same f (some s) =
      elim s.message
        as (λ b. follow (of_body f) b ≡ panics_if (no_body b) (returns (body_field f t b))) [
          | none ↦ refl
          | some b ↦ some_body_same f b.body
        ]

  pub checked_same :
      (f : Text → Option (BeaconBlock Rest) → Result A)
      → f t none ≡ err (no_block t)
      → (s : Option (SignedBeaconBlock Rest)) → checked f t s ≡ f t (message_of s)
  checked_same f h none = sym h
  checked_same f h (some s) = refl

-- The same for an accessor of a field, on all forks.
module _ {A : Type 0} (all : AllMethods) where
  field_agree :
      (f : (Rest : Type 0) → BeaconBlock Rest → A) (v : VersionedSignedBeaconBlock)
      → each_fork all (λ Rest m. unchecked (of_block (f Rest))) (returns (err unknown_version)) v
        ≡ panics_if (lacks has_no_message v) (
            returns
              (each_fork all (λ Rest m. block_field (f Rest)) (err unknown_version) (unsigned v)))
  field_agree f v =
      each_fork_returns all has_no_message (λ Rest m. unchecked (of_block (f Rest)))
        (λ Rest m. block_field (f Rest)) (λ Rest m t s. field_same t (f Rest) s)
        (err unknown_version) v

  body_field_agree :
      (f : (Rest : Type 0) → BeaconBlockBody Rest → A) (v : VersionedSignedBeaconBlock)
      → each_fork all (λ Rest m. unchecked (of_body (f Rest))) (returns (err unknown_version)) v
        ≡ panics_if (lacks has_no_body v) (
            returns
              (each_fork all (λ Rest m. body_field (f Rest)) (err unknown_version) (unsigned v)))
  body_field_agree f v =
      each_fork_returns all has_no_body (λ Rest m. unchecked (of_body (f Rest)))
        (λ Rest m. body_field (f Rest)) (λ Rest m t s. body_same t (f Rest) s) (err unknown_version)
        v

  checked_agree :
      (g : (Rest : Type 0) → Text → Option (BeaconBlock Rest) → Result A)
      → ((Rest : Type 0) (t : Text) → g Rest t none ≡ err (no_block t))
      → (v : VersionedSignedBeaconBlock)
      → each_fork all (λ Rest m. checked (g Rest)) (err unknown_version) v
        ≡ each_fork all (λ Rest m. g Rest) (err unknown_version) (unsigned v)
  checked_agree g h v =
      rw
        (
          checked_same (codes "phase0") (g _) (h _ _) v.phase0_data,
          checked_same (codes "altair") (g _) (h _ _) v.altair_data,
          checked_same (codes "bellatrix") (g _) (h _ _) v.bellatrix_data,
          checked_same (codes "capella") (g _) (h _ _) v.capella_data,
        )
        refl

module _ (all : AllMethods) where
  -- For any version, the root and the body root of a versioned signed block end as those of the
  -- versioned block that it signs, but that they panic where the block of the version is there
  -- without a message.
  pub roots_agree :
      (v : VersionedSignedBeaconBlock)
      → (Signed.root all v ≡ panics_if (lacks has_no_message v) (Block.root all (unsigned v)))
        × (Signed.body_root all v
            ≡ panics_if (lacks has_no_message v) (Block.body_root all (unsigned v)))
  unfolding Signed.root Signed.body_root Block.root Block.body_root
  roots_agree v = (
    each_fork-agree all has_no_message (λ Rest m. unchecked m.hash_block) (λ Rest m. block_root m)
        (λ Rest m t s. root_same m t s) (returns (err unknown_version)) v,
    each_fork-agree all has_no_message (λ Rest m. unchecked (λ b. hashed_body m b.body))
        (λ Rest m. body_root_of m) (λ Rest m t s. body_root_same m t s)
        (returns (err unknown_version)) v,
  )

  -- For any version, the parent root and the state root that a versioned signed block shows are
  -- those that the versioned block it signs shows, errors included, but that they panic where the
  -- block of the version is there without a message. Its slashings agree likewise, but panic
  -- where that block has no message or a message without a body.
  pub fields_agree :
      (v : VersionedSignedBeaconBlock)
      → (Signed.parent_root all v
          ≡ panics_if (lacks has_no_message v) (returns (Block.parent_root all (unsigned v))))
        × (Signed.state_root all v
            ≡ panics_if (lacks has_no_message v) (returns (Block.state_root all (unsigned v))))
        × (Signed.attester_slashings all v
            ≡ panics_if (lacks has_no_body v) (returns (Block.attester_slashings all (unsigned v))))
        × (Signed.proposer_slashings all v
            ≡ panics_if (lacks has_no_body v) (returns (Block.proposer_slashings all (unsigned v))))
  unfolding Signed.parent_root Signed.state_root Signed.attester_slashings Signed.proposer_slashings
      Block.parent_root Block.state_root Block.attester_slashings Block.proposer_slashings
  fields_agree v = (
    field_agree all (λ Rest b. b.parent_root) v,
    field_agree all (λ Rest b. b.state_root) v,
    body_field_agree all (λ Rest b. b.attester_slashings) v,
    body_field_agree all (λ Rest b. b.proposer_slashings) v,
  )

  -- For any version and any pointers, `Slot` and `Attestations` of a versioned signed block
  -- return what they do for the versioned block that it signs, errors included.
  pub guarded_agree :
      (v : VersionedSignedBeaconBlock)
      → (Signed.slot all v ≡ Block.slot all (unsigned v))
        × (Signed.attestations all v ≡ Block.attestations all (unsigned v))
  unfolding Signed.slot Signed.attestations Block.slot Block.attestations
  guarded_agree v = (
    checked_agree all (λ Rest. block_field (λ b. b.slot)) (λ Rest t. refl) v,
    checked_agree all (λ Rest. body_field (λ b. b.attestations)) (λ Rest t. refl) v,
  )

  -- For any version and any pointers, `Slot` and `Attestations` of a versioned signed block
  -- return what they do for the versioned block that it signs, errors included. The root, the
  -- body root, the parent root and the state root end likewise, but that they panic where the
  -- block of the version is there without a message; the slashings likewise, but that they panic
  -- where that block has no message or a message without a body.
  pub signed_agree :
      (v : VersionedSignedBeaconBlock)
      → (Signed.slot all v ≡ Block.slot all (unsigned v))
        × (Signed.attestations all v ≡ Block.attestations all (unsigned v))
        × (Signed.root all v ≡ panics_if (lacks has_no_message v) (Block.root all (unsigned v)))
        × (Signed.body_root all v
            ≡ panics_if (lacks has_no_message v) (Block.body_root all (unsigned v)))
        × (Signed.parent_root all v
            ≡ panics_if (lacks has_no_message v) (returns (Block.parent_root all (unsigned v))))
        × (Signed.state_root all v
            ≡ panics_if (lacks has_no_message v) (returns (Block.state_root all (unsigned v))))
        × (Signed.attester_slashings all v
            ≡ panics_if (lacks has_no_body v) (returns (Block.attester_slashings all (unsigned v))))
        × (Signed.proposer_slashings all v
            ≡ panics_if (lacks has_no_body v) (returns (Block.proposer_slashings all (unsigned v))))
  signed_agree v =
      let (s, a) = guarded_agree v in
      let (r, b) = roots_agree v in
      let (p, t, attester, proposer) = fields_agree v in (s, a, r, b, p, t, attester, proposer)
