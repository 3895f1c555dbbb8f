-- ===== src/Http/Submit/Tests.antt =====
-- Submissions to a node that answers every request.
use go_eth2_client.Prelude.{
  ℕ, Bytes, codes, Error, Result, ok, err, returns, Option, none, some, List, [], ◌∷◌, map, ◌≡◌,
  ◌≢◌, arith, refl, inl,
}
use go_eth2_client.Spec.Blocks.{SignedBeaconBlock}
use go_eth2_client.Spec.Versioned.{VersionedSignedBeaconBlock}
use go_eth2_client.Api.SignedBlinded.{VersionedSignedBlindedBeaconBlock}
use go_eth2_client.Http.Get.{post}
use go_eth2_client.Http.Submit.{
  VersionedSignedValidatorRegistration, unwrap, submit_beacon_block, submit_blinded_beacon_block,
  submit_validator_registrations,
}
use go_eth2_client.Http.Submit.Refused.{
  HasSent, first_version, submit_block_refused, submit_validator_registrations-HasSent,
}
use go_eth2_client.Http.Answers.{node, client}

abbrev encode_block : (Rest : Type 0) → Option (SignedBeaconBlock Rest) → Result Bytes
encode_block Rest b = ok (codes "null")

abbrev later_block : VersionedSignedBeaconBlock
later_block = record {
  version = 4;
  phase0_data = none;
  altair_data = none;
  bellatrix_data = none;
  capella_data = none;
}

abbrev early_block : VersionedSignedBlindedBeaconBlock
early_block = record { version = 0; bellatrix_data = none; capella_data = none }

submit_block_refused_example :
    (submit_beacon_block node encode_block none client 0
      ≡ (returns (err (codes "no block supplied")), client, 0))
    × (submit_blinded_beacon_block node encode_block none client 0
        ≡ (returns (err (codes "no blinded block supplied")), client, 0))
    × (submit_beacon_block node encode_block (some later_block) client 0
        ≡ (returns (err (codes "failed to marshal JSON: unknown block version")), client, 0))
    × ((e : Error) × (submit_blinded_beacon_block node encode_block (some early_block) client 0
          ≡ (returns (err e), client, 0)))
submit_block_refused_example =
    submit_block_refused node encode_block later_block early_block client 0 (omega arith)
      (inl (omega arith))

-- The registrations are numbers here, and are sent as bytes.
abbrev encode_numbers : List (Option ℕ) → Result Bytes
encode_numbers [] = ok []
encode_numbers (none ∷ rs) = err (codes "no number")
encode_numbers (some n ∷ rs) = ok (n ∷ [])

abbrev registrations : List (Option (VersionedSignedValidatorRegistration ℕ))
registrations = map first_version (some 5 ∷ some 6 ∷ [])

registrations_sent :
    submit_validator_registrations node encode_numbers registrations client 0
    ≡ (returns (ok tt), client, 1)
unfolding submit_validator_registrations unwrap post
registrations_sent = refl

submit_validator_registrations-HasSent_example :
    (registrations ≢ [])
    × ((rs : List (Option ℕ)) × (registrations ≡ map first_version rs)
        × HasSent node
            (codes "/eth/v1/validator/register_validator")
            (encode_numbers rs)
            client
            0
            client
            1)
submit_validator_registrations-HasSent_example =
    submit_validator_registrations-HasSent encode_numbers node registrations client 0
      registrations_sent
