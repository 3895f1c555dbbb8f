-- ===== src/Http/Blocks/Proposed.antt =====
-- A block that is proposed is the one that was asked for.
use go_eth2_client.Prelude.{
  Ending, ℕ, zero, suc, Text, codes, Bytes, Slot, BlsSignature, Result, ok, err, returns, true,
  false, ◌==◌, Option, none, some, text_eq, text_eq→eq, if◌then◌else◌, ◌≡◌, refl, arith, Bool-cases,
  inl, inr, ap,
}
use go_eth2_client.Spec.DataVersion.{DataVersion, by_version}
use go_eth2_client.Spec.Blocks.{BeaconBlock, BeaconBlockBody}
use go_eth2_client.Spec.Versioned.{VersionedBeaconBlock, AllMethods, unknown_version}
use go_eth2_client.Spec.Versioned.Block
use go_eth2_client.Http.Service.{Service, Server}
use go_eth2_client.Http.Service.Steps.{Yields, after-Yields, after-Yields_from, Yields-ok}
use go_eth2_client.Http.Spec.{copied}
use go_eth2_client.Http.Blocks.{
  ForkDecoders, version_of, requested, proposal_v1, proposal_v2, check_body, check_proposal,
  proposal_of, proposal_by_version, beacon_block_proposal_v1, beacon_block_proposal_v2,
  beacon_block_proposal, full, as_phase0, as_altair, as_bellatrix, as_capella,
}

-- The slot, the RANDAO reveal and the graffiti of a block with a body.
abbrev pub Shown : Type 0
Shown = Slot × Bytes × Bytes

module _ {Rest : Type 0} where
  abbrev shown_body : BeaconBlock Rest → Option (BeaconBlockBody Rest) → Option Shown
  shown_body b none = none
  shown_body b (some body) = some (b.slot, body.randao_reveal, body.graffiti)

  abbrev pub shown : Option (BeaconBlock Rest) → Option Shown
  shown none = none
  shown (some b) = shown_body b b.body

-- What the block of the version shows.
abbrev pub shown_by : VersionedBeaconBlock → Option Shown
shown_by v =
    by_version v.version (shown v.phase0_data) (shown v.altair_data) (shown v.bellatrix_data)
      (shown v.capella_data) none

module _ {Rest : Type 0} (name : Text) {slot : Slot} {x y : Bytes} where
  shown_body_slot :
      (b : BeaconBlock Rest) (body : Option (BeaconBlockBody Rest))
      → shown_body b body ≡ some (slot, x, y)
      → b.slot ≡ slot
  shown_body_slot b none h = ground arith
  shown_body_slot b (some body) h = ground arith

  pub shown_slot :
      (b : Option (BeaconBlock Rest))
      → shown b ≡ some (slot, x, y)
      → Block.block_field (λ b. b.slot) name b ≡ ok slot
  shown_slot none h = ground arith
  shown_slot (some b) h = ap ok (shown_body_slot b b.body h)

-- What a block shows is what the accessor of its slot reads.
shown_by_slot :
    (all : AllMethods) (v : VersionedBeaconBlock) {slot : Slot} {x y : Bytes}
    → shown_by v ≡ some (slot, x, y)
    → Block.slot all v ≡ ok slot
unfolding Block.slot
shown_by_slot all v {slot} {x} {y} h = at v.version h
  where
    at :
        (n : ℕ)
        → by_version n
            (shown v.phase0_data)
            (shown v.altair_data)
            (shown v.bellatrix_data)
            (shown v.capella_data)
            none
          ≡ some (slot, x, y)
        → by_version n
            (Block.block_field (λ b. b.slot) (codes "phase0") v.phase0_data)
            (Block.block_field (λ b. b.slot) (codes "altair") v.altair_data)
            (Block.block_field (λ b. b.slot) (codes "bellatrix") v.bellatrix_data)
            (Block.block_field (λ b. b.slot) (codes "capella") v.capella_data)
            (err unknown_version)
          ≡ ok slot
    at zero h = shown_slot (codes "phase0") v.phase0_data h
    at (suc zero) h = shown_slot (codes "altair") v.altair_data h
    at (suc (suc zero)) h = shown_slot (codes "bellatrix") v.bellatrix_data h
    at (suc (suc (suc zero))) h = shown_slot (codes "capella") v.capella_data h
    at (suc (suc (suc (suc n)))) h = ground arith

module _ (server : Server) (response_version : Bytes → Result DataVersion) (slot : Slot)
    (reveal : BlsSignature) (graffiti : Bytes) where
  open server use {World}

  module _ {Rest : Type 0} where
    abbrev pub IsAsked : BeaconBlock Rest → Type 0
    IsAsked b = shown (some b) ≡ some (slot, reveal, graffiti)

    check_body-IsAsked :
        (kind : Text) (b : BeaconBlock Rest) (body : Option (BeaconBlockBody Rest)) (s : Service)
        (w : World)
        → b.slot ≡ slot
        → b.body ≡ body
        → Yields IsAsked (check_body server response_version slot reveal graffiti kind b body s w)
    check_body-IsAsked kind b none s w e k = tt
    check_body-IsAsked kind b (some body) s w e k =
        elim (Bool-cases (text_eq body.randao_reveal reveal)) [
          | inr miss ↦ rw (miss) tt
          | inl hit ↦ elim (Bool-cases (text_eq body.graffiti graffiti)) [
            | inr miss' ↦ rw (hit, miss') tt
            | inl hit' ↦
                rw (hit, hit')
                  (rw k (
                    ground (
                      arith,
                      text_eq→eq body.randao_reveal reveal hit,
                      text_eq→eq body.graffiti graffiti hit',
                    )))
          ]
        ]

    pub check_proposal-IsAsked :
        (kind : Text) (b : Option (BeaconBlock Rest)) (s : Service) (w : World)
        → Yields IsAsked (check_proposal server response_version slot reveal graffiti kind b s w)
    check_proposal-IsAsked kind none s w = tt
    check_proposal-IsAsked kind (some b) s w = elim (Bool-cases (b.slot == slot)) [
      | inl hit ↦ rw hit (check_body-IsAsked kind b b.body s w (ground arith) refl)
      | inr miss ↦ rw miss tt
    ]

    -- The data of a proposal passed the checks.
    pub proposal_of-Yields :
        {V : Type 0} (IsGood : V → Type 0) (kind message : Text)
        (store : Option (BeaconBlock Rest) → V) (data' : Ending (Option (BeaconBlock Rest)))
        (s : Service) (w : World)
        → ((b : BeaconBlock Rest) → IsAsked b → IsGood (store (some b)))
        → Yields IsGood
            (proposal_of server response_version slot reveal graffiti kind message store data' s w)
    proposal_of-Yields IsGood kind message store data' s w stored =
        after-Yields IsGood _ _ (λ d s w.
          after-Yields_from IsGood IsAsked _ _ (check_proposal-IsAsked kind d s w)
            (λ b s w asked. stored b asked))

  abbrev IsFor : VersionedBeaconBlock → Type 0
  IsFor v = shown_by v ≡ some (slot, reveal, graffiti)

  module _ (decoders : ForkDecoders BeaconBlock) where
    proposal_by_version-IsFor :
        (body : Bytes) (version : DataVersion) (s : Service) (w : World)
        → Yields IsFor (
            proposal_by_version server response_version slot reveal graffiti decoders body version s
              w)
    proposal_by_version-IsFor body zero s w =
        proposal_of-Yields IsFor full (codes "failed to parse phase 0 beacon block proposal")
          as_phase0 _ s w (λ b asked. asked)
    proposal_by_version-IsFor body (suc zero) s w =
        proposal_of-Yields IsFor full (codes "failed to parse altair beacon block proposal")
          as_altair _ s w (λ b asked. asked)
    proposal_by_version-IsFor body (suc (suc zero)) s w =
        proposal_of-Yields IsFor full (codes "failed to parse bellatrix beacon block proposal")
          as_bellatrix _ s w (λ b asked. asked)
    proposal_by_version-IsFor body (suc (suc (suc zero))) s w =
        proposal_of-Yields IsFor full (codes "failed to parse capella beacon block proposal")
          as_capella _ s w (λ b asked. asked)
    proposal_by_version-IsFor body (suc (suc (suc (suc n)))) s w = tt

    v2-IsFor :
        (s : Service) (w : World)
        → Yields IsFor
            (beacon_block_proposal_v2 server response_version slot reveal graffiti decoders s w)
    unfolding beacon_block_proposal_v2
    v2-IsFor s w =
        after-Yields IsFor (proposal_v2 server response_version slot reveal graffiti decoders)
          (requested server response_version slot reveal graffiti (codes "/eth/v2") s w)
          (λ body s w.
            after-Yields IsFor
              (proposal_by_version server response_version slot reveal graffiti decoders body)
              (version_of server response_version slot reveal graffiti decoders body s w)
              (λ version s w. proposal_by_version-IsFor body version s w))

    v1-IsFor :
        (s : Service) (w : World)
        → Yields IsFor
            (beacon_block_proposal_v1 server response_version slot reveal graffiti decoders s w)
    unfolding beacon_block_proposal_v1
    v1-IsFor s w =
        after-Yields IsFor (proposal_v1 server response_version slot reveal graffiti decoders)
          (requested server response_version slot reveal graffiti (codes "/eth/v1") s w)
          (λ body s w.
            proposal_of-Yields IsFor full (codes "failed to parse beacon block proposal") as_phase0
              (decoders.phase0_decoder body) s w (λ b asked. asked))

module _ (server : Server) (response_version : Bytes → Result DataVersion) where
  open server use {World}

  -- Whatever the node answers, with either version of the API: a block that `BeaconBlockProposal`
  -- returns has a body, is for the requested slot, has the given RANDAO reveal and has as
  -- graffiti the given one, cut or filled with zeros to 32 bytes; the accessor `Slot` of the
  -- versioned block returns that slot without an error.
  pub beacon_block_proposal-IsRequested :
      (decoders : ForkDecoders BeaconBlock) (all : AllMethods) (slot : Slot) (reveal : BlsSignature)
      (graffiti : Bytes) (s : Service) (w : World) {v : VersionedBeaconBlock} {s' : Service}
      {w' : World}
      → beacon_block_proposal server response_version decoders slot reveal graffiti s w
        ≡ (returns (ok v), s', w')
      → (shown_by v ≡ some (slot, reveal, copied 32 graffiti)) × (Block.slot all v ≡ ok slot)
  unfolding beacon_block_proposal
  beacon_block_proposal-IsRequested decoders all slot reveal graffiti s w h =
      let e : shown_by _ ≡ some (slot, reveal, copied 32 graffiti) =
        Yields-ok _ _
          (elim s.supports_v2_beacon_blocks
            as (λ b.
              Yields (λ v. shown_by v ≡ some (slot, reveal, copied 32 graffiti))
                (if b
                  then beacon_block_proposal_v2 server response_version slot reveal
                      (copied 32 graffiti) decoders s w
                  else beacon_block_proposal_v1 server response_version slot reveal
                      (copied 32 graffiti) decoders s w)) [
                        | true ↦
                            v2-IsFor server response_version slot reveal (copied 32 graffiti)
                              decoders s w
                        | false ↦
                            v1-IsFor server response_version slot reveal (copied 32 graffiti)
                              decoders s w
                      ])
          h in
      (e, shown_by_slot all _ e)
