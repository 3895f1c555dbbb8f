-- ===== src/Http/Submit.antt =====
-- The submissions of http/: submitattestations.go and its likes. An encoder is that of `encoding/json`.
pub mod Refused
pub mod Tests
use go_eth2_client.Prelude.{
  ℕ, Text, Bytes, codes, Error, Result, ok, err, Bool, true, false, ◌==◌, Option, none, some, List,
  [], ◌∷◌, ◌++◌, if◌then◌else◌,
}
use go_eth2_client.Spec.DataVersion.{by_version}
use go_eth2_client.Spec.Blocks.{SignedBeaconBlock}
use go_eth2_client.Spec.Versioned.{VersionedSignedBeaconBlock, each_fork, AllMethods}
use go_eth2_client.Api.SignedBlinded.{VersionedSignedBlindedBeaconBlock}
use go_eth2_client.Http.Service.{Server, M, pure, fail, lift, or_wrap, ◌>>=◌}
use go_eth2_client.Http.Get.{post}

-- A validator registration with its builder version; the pointer is passed on as it is.
pub record VersionedSignedValidatorRegistration (R : Type 0) : Type 0 where
  pub version : ℕ
  pub v1 : Option R

module _ (server : Server) where
  open server use {World}

  -- What is encoded is sent, and the body of the answer is dropped.
  abbrev pub sent : Text → Text → Text → Result Bytes → M World (Unit {0})
  sent unencoded url failed content = or_wrap unencoded (lift content) >>= λ body.
      or_wrap failed (post server url body) >>= λ answer. pure tt

  abbrev pub marshalled : Text → Text → Result Bytes → M World (Unit {0})
  marshalled = sent (codes "failed to marshal JSON")

  module _ {A : Type 0} (encode : A → Result Bytes) (items : A) where
    unfoldable pub submit_attestations : M World (Unit {0})
    submit_attestations =
        marshalled (codes "/eth/v1/beacon/pool/attestations")
          (codes "failed to submit beacon attestations") (encode items)

    unfoldable pub submit_aggregate_attestations : M World (Unit {0})
    submit_aggregate_attestations =
        marshalled (codes "/eth/v1/validator/aggregate_and_proofs")
          (codes "failed to submit aggregate and proofs") (encode items)

    unfoldable pub submit_voluntary_exit : M World (Unit {0})
    submit_voluntary_exit =
        marshalled (codes "/eth/v1/beacon/pool/voluntary_exits")
          (codes "failed to submit voluntary exit") (encode items)

    unfoldable pub submit_bls_to_execution_changes : M World (Unit {0})
    submit_bls_to_execution_changes =
        marshalled (codes "/eth/v1/beacon/pool/bls_to_execution_changes")
          (codes "failed to submit BLS to execution change") (encode items)

    unfoldable pub submit_sync_committee_contributions : M World (Unit {0})
    submit_sync_committee_contributions =
        marshalled (codes "/eth/v1/validator/contribution_and_proofs")
          (codes "failed to submit contribution and proofs") (encode items)

    unfoldable pub submit_sync_committee_messages : M World (Unit {0})
    submit_sync_committee_messages =
        marshalled (codes "/eth/v1/beacon/pool/sync_committees")
          (codes "failed to submit sync committee messages") (encode items)

    unfoldable pub submit_beacon_committee_subscriptions : M World (Unit {0})
    submit_beacon_committee_subscriptions =
        sent (codes "failed to encode beacon committee subscriptions")
          (codes "/eth/v1/validator/beacon_committee_subscriptions")
          (codes "failed to request beacon committee subscriptions") (encode items)

    unfoldable pub submit_sync_committee_subscriptions : M World (Unit {0})
    submit_sync_committee_subscriptions =
        sent (codes "failed to encode sync committee subscriptions")
          (codes "/eth/v1/validator/sync_committee_subscriptions")
          (codes "failed to request sync committee subscriptions") (encode items)

    unfoldable pub submit_proposal_preparations : M World (Unit {0})
    submit_proposal_preparations =
        sent (codes "failed to encode proposal preparations")
          (codes "/eth/v1/validator/prepare_beacon_proposer")
          (codes "failed to send proposal preparations") (encode items)

  -- `json.Marshal` of a block of any fork; a nil pointer is encoded as it is.
  module _ (encode : (Rest : Type 0) → Option (SignedBeaconBlock Rest) → Result Bytes) where
    abbrev pub block_content : VersionedSignedBeaconBlock → Result Bytes
    block_content b =
        by_version b.version (encode _ b.phase0_data) (encode _ b.altair_data)
          (encode _ b.bellatrix_data) (encode _ b.capella_data)
          (err (codes "unknown block version"))

    unfoldable pub submit_beacon_block : Option VersionedSignedBeaconBlock → M World (Unit {0})
    submit_beacon_block none = fail (codes "no block supplied")
    submit_beacon_block (some b) =
        marshalled (codes "/eth/v1/beacon/blocks") (codes "failed to submit beacon block")
          (block_content b)

    abbrev pub blinded_content : VersionedSignedBlindedBeaconBlock → Result Bytes
    blinded_content b =
        by_version b.version (err (codes "blinded phase0 blocks not supported"))
          (err (codes "blinded altair blocks not supported")) (encode _ b.bellatrix_data)
          (encode _ b.capella_data) (err (codes "unknown block version"))

    unfoldable pub submit_blinded_beacon_block :
        Option VersionedSignedBlindedBeaconBlock → M World (Unit {0})
    submit_blinded_beacon_block none = fail (codes "no blinded block supplied")
    submit_blinded_beacon_block (some b) =
        marshalled (codes "/eth/v1/beacon/blinded_blocks")
          (codes "failed to submit blinded beacon block") (blinded_content b)

  module _ {R : Type 0} (encode : List (Option R) → Result Bytes) where
    -- Whether a version differs from the first one, which is none before the first round.
    abbrev pub differs : Option ℕ → ℕ → Bool
    differs none v = false
    differs (some first) v = if first == v then false else true

    abbrev pub consed : Option R → Result (List (Option R)) → Result (List (Option R))
    consed r (err e) = err e
    consed r (ok rs) = ok (r ∷ rs)

    abbrev pub unwrap_one :
        Option ℕ
        → VersionedSignedValidatorRegistration R
        → Result (List (Option R))
        → Result (List (Option R))
    unwrap_one version r rest =
        if differs version r.version
        then err (codes "registrations must all be of the same version")
        else if r.version == 0
        then consed r.v1 rest
        else err (codes "unknown validator registration version")

    -- The loop; the first version is kept.
    unfoldable pub unwrap :
        Option ℕ → List (Option (VersionedSignedValidatorRegistration R)) → Result (List (Option R))
    unwrap version [] = ok []
    unwrap version (none ∷ rs) = err (codes "nil registration supplied")
    unwrap none (some r ∷ rs) = unwrap_one none r (unwrap (some r.version) rs)
    unwrap (some v) (some r ∷ rs) = unwrap_one (some v) r (unwrap (some v) rs)

    abbrev pub registered : Result (List (Option R)) → M World (Unit {0})
    registered (err e) = fail e
    registered (ok rs) =
        marshalled (codes "/eth/v1/validator/register_validator")
          (codes "failed to submit validator registration") (encode rs)

    unfoldable pub submit_validator_registrations :
        List (Option (VersionedSignedValidatorRegistration R)) → M World (Unit {0})
    unfolding unwrap
    submit_validator_registrations [] = fail (codes "no registrations supplied")
    submit_validator_registrations (r ∷ rs) = registered (unwrap none (r ∷ rs))
