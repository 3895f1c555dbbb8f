-- ===== src/Http/Blocks.antt =====
-- http/signedbeaconblock.go and http/beaconblockproposal.go: blocks of any fork, fetched and proposed.
-- A response is decoded once for its version and again for its data.
pub mod Proposed
pub mod Versioning
use go_eth2_client.Prelude.{
  ℕ, Text, Bytes, Slot, BlsSignature, codes, Error, Result, ok, err, Ending, returns, panics, Bool,
  true, false, not, ◌==◌, Option, none, some, List, [], ◌∷◌, ◌++◌, if◌then◌else◌, text_eq,
}
use go_eth2_client.Codec.Decimal.{format_uint}
use go_eth2_client.Codec.Hex.{format_hex}
use go_eth2_client.Spec.DataVersion.{DataVersion, phase0, by_version, data_version_string}
use go_eth2_client.Spec.Blocks.{
  BeaconBlock, BeaconBlockBody, SignedBeaconBlock, Phase0Rest, AltairRest, BellatrixRest,
  CapellaRest,
}
use go_eth2_client.Spec.Versioned.{Versioned, VersionedBeaconBlock, VersionedSignedBeaconBlock}
use go_eth2_client.Http.Service.{
  Service, Server, M, pure, fail, crash, lift, lift_ending, or_wrap, after, ◌>>=◌,
}
use go_eth2_client.Http.Get.{get}
use go_eth2_client.Http.Static.{request, need_body}
use go_eth2_client.Http.Spec.{copied}

-- The decoders of the field `data` for each fork: none if it is absent or null. They may panic, as
-- those of execution payloads do on some base fees.
pub record ForkDecoders (B : Type 0 → Type 0) : Type 0 where
  pub phase0_decoder : Bytes → Ending (Option (B Phase0Rest))
  pub altair_decoder : Bytes → Ending (Option (B AltairRest))
  pub bellatrix_decoder : Bytes → Ending (Option (B BellatrixRest))
  pub capella_decoder : Bytes → Ending (Option (B CapellaRest))

module _ {B : Type 0 → Type 0} where
  abbrev pub empty : DataVersion → Versioned B
  empty version = record {
    version = version;
    phase0_data = none;
    altair_data = none;
    bellatrix_data = none;
    capella_data = none;
  }

  abbrev pub as_phase0 : Option (B Phase0Rest) → Versioned B
  as_phase0 data' = record (empty 0) { phase0_data = data' }

  abbrev pub as_altair : Option (B AltairRest) → Versioned B
  as_altair data' = record (empty 1) { altair_data = data' }

  abbrev pub as_bellatrix : Option (B BellatrixRest) → Versioned B
  as_bellatrix data' = record (empty 2) { bellatrix_data = data' }

  abbrev pub as_capella : Option (B CapellaRest) → Versioned B
  as_capella data' = record (empty 3) { capella_data = data' }

-- How the errors on a proposal begin.
abbrev pub full : Text
full = codes "beacon block proposal"

module _ (server : Server) (response_version : Bytes → Result DataVersion) where
  open server use {World}

  module _ (decoders : ForkDecoders SignedBeaconBlock) where
    open decoders use {phase0_decoder, altair_decoder, bellatrix_decoder, capella_decoder}

    abbrev pub signed_of :
        {A : Type 0}
        → Text
        → (A → VersionedSignedBeaconBlock)
        → Ending A
        → M World (Option VersionedSignedBeaconBlock)
    signed_of message store data' =
        or_wrap message (lift_ending data') >>= λ d. pure (some (store d))

    abbrev pub signed_v1 : Option Bytes → M World (Option VersionedSignedBeaconBlock)
    signed_v1 none = pure none
    signed_v1 (some body) =
        signed_of (codes "failed to parse signed beacon block") as_phase0 (phase0_decoder body)

    unfoldable pub signed_beacon_block_v1 : Text → M World (Option VersionedSignedBeaconBlock)
    signed_beacon_block_v1 block_id =
        or_wrap (codes "failed to request signed beacon block")
          (get server (codes "/eth/v1/beacon/blocks/" ++ block_id))
        >>= signed_v1

    abbrev pub signed_by_version : Bytes → DataVersion → M World (Option VersionedSignedBeaconBlock)
    signed_by_version body version =
        by_version version
          (signed_of (codes "failed to parse phase 0 signed beacon block") as_phase0
            (phase0_decoder body))
          (signed_of (codes "failed to parse altair signed beacon block") as_altair
            (altair_decoder body))
          (signed_of (codes "failed to parse bellatrix signed beacon block") as_bellatrix
            (bellatrix_decoder body))
          (signed_of (codes "failed to parse capella signed beacon block") as_capella
            (capella_decoder body))
          (fail (codes "unhandled block version " ++ data_version_string version))

    abbrev pub signed_v2 : Option Bytes → M World (Option VersionedSignedBeaconBlock)
    signed_v2 none = pure none
    signed_v2 (some body) =
        or_wrap (codes "failed to parse response") (lift (response_version body))
        >>= signed_by_version body

    unfoldable pub signed_beacon_block_v2 : Text → M World (Option VersionedSignedBeaconBlock)
    signed_beacon_block_v2 block_id =
        or_wrap (codes "failed to request signed beacon block")
          (get server (codes "/eth/v2/beacon/blocks/" ++ block_id))
        >>= signed_v2

    unfoldable pub signed_beacon_block : Text → M World (Option VersionedSignedBeaconBlock)
    unfolding signed_beacon_block_v1 signed_beacon_block_v2
    signed_beacon_block block_id s w =
        if s.supports_v2_beacon_blocks
        then signed_beacon_block_v2 block_id s w
        else signed_beacon_block_v1 block_id s w

    abbrev pub with_versions :
        Ending (Option VersionedSignedBeaconBlock) × Service × World
        → Ending (Unit {0}) × Service × World
    with_versions (panics, s, w) = (panics, s, w)
    with_versions (returns (ok b), s, w) = (
      returns (ok tt),
      record s { supports_v2_beacon_state = true; supports_v2_validator_blocks = true },
      w,
    )
    with_versions (returns (err e), s, w) =
        (returns (ok tt), record s { supports_v2_beacon_blocks = false }, w)

    -- `checkAPIVersioning`.
    unfoldable pub check_api_versioning : M World (Unit {0})
    unfolding signed_beacon_block
    check_api_versioning s w =
        with_versions
          (signed_beacon_block (codes "0") (record s { supports_v2_beacon_blocks = true }) w)

  module _ (slot : Slot) (randao_reveal : BlsSignature) (graffiti : Bytes) where
    -- The checks of the body of a proposal; a nil pointer is followed. The errors begin with `kind`.
    abbrev pub check_body :
        {Rest : Type 0}
        → Text
        → BeaconBlock Rest
        → Option (BeaconBlockBody Rest)
        → M World (BeaconBlock Rest)
    check_body kind b none = crash
    check_body kind b (some body) =
        if not (text_eq body.randao_reveal randao_reveal)
        then fail (kind ++ codes " has incorrect RANDAO reveal")
        else if not (text_eq body.graffiti graffiti)
        then fail (kind ++ codes " has incorrect graffiti")
        else pure b

    abbrev pub check_proposal :
        {Rest : Type 0} → Text → Option (BeaconBlock Rest) → M World (BeaconBlock Rest)
    check_proposal kind none = crash
    check_proposal kind (some b) =
        if not (b.slot == slot)
        then fail (kind ++ codes " not for requested slot")
        else check_body kind b b.body

    abbrev pub proposal_of :
        {Rest V : Type 0}
        → Text
        → Text
        → (Option (BeaconBlock Rest) → V)
        → Ending (Option (BeaconBlock Rest))
        → M World V
    proposal_of kind message store data' = or_wrap message (lift_ending data') >>= λ d.
        check_proposal kind d >>= λ b. pure (store (some b))

    abbrev proposal_url : Text → Text
    proposal_url api =
        api
        ++ codes "/validator/blocks/"
        ++ format_uint slot
        ++ codes "?randao_reveal="
        ++ format_hex randao_reveal
        ++ codes "&graffiti="
        ++ format_hex graffiti

    abbrev pub requested : Text → M World Bytes
    requested api =
        request server (proposal_url api) (codes "failed to request beacon block proposal")
          (codes "failed to obtain beacon block proposal")

    module _ (decoders : ForkDecoders BeaconBlock) where
      open decoders use {phase0_decoder, altair_decoder, bellatrix_decoder, capella_decoder}

      abbrev pub proposal_by_version : Bytes → DataVersion → M World VersionedBeaconBlock
      proposal_by_version body version =
          by_version version
            (proposal_of full (codes "failed to parse phase 0 beacon block proposal") as_phase0
              (phase0_decoder body))
            (proposal_of full (codes "failed to parse altair beacon block proposal") as_altair
              (altair_decoder body))
            (proposal_of full (codes "failed to parse bellatrix beacon block proposal") as_bellatrix
              (bellatrix_decoder body))
            (proposal_of full (codes "failed to parse capella beacon block proposal") as_capella
              (capella_decoder body))
            (fail (codes "unsupported block version " ++ data_version_string version))

      abbrev pub version_of : Bytes → M World DataVersion
      version_of body = or_wrap (codes "failed to parse response") (lift (response_version body))

      abbrev pub proposal_v2 : Bytes → M World VersionedBeaconBlock
      proposal_v2 body = version_of body >>= proposal_by_version body

      unfoldable pub beacon_block_proposal_v2 : M World VersionedBeaconBlock
      beacon_block_proposal_v2 = requested (codes "/eth/v2") >>= proposal_v2

      abbrev pub proposal_v1 : Bytes → M World VersionedBeaconBlock
      proposal_v1 body =
          proposal_of full (codes "failed to parse beacon block proposal") as_phase0
            (phase0_decoder body)

      unfoldable pub beacon_block_proposal_v1 : M World VersionedBeaconBlock
      beacon_block_proposal_v1 = requested (codes "/eth/v1") >>= proposal_v1

  -- The graffiti is cut or filled to 32 bytes.
  unfoldable pub beacon_block_proposal :
      ForkDecoders BeaconBlock → Slot → BlsSignature → Bytes → M World VersionedBeaconBlock
  unfolding beacon_block_proposal_v1 beacon_block_proposal_v2
  beacon_block_proposal decoders slot randao_reveal graffiti s w =
      if s.supports_v2_beacon_blocks
      then beacon_block_proposal_v2 slot randao_reveal (copied 32 graffiti) decoders s w
      else beacon_block_proposal_v1 slot randao_reveal (copied 32 graffiti) decoders s w
