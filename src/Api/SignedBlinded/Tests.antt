-- ===== src/Api/SignedBlinded/Tests.antt =====
-- A signed blinded block of Capella without a message.
use go_eth2_client.Prelude.{codes, returns, panics, ok, err, none, some, [], ◌≡◌, refl}
use go_eth2_client.Spec.Versioned.{Methods}
use go_eth2_client.Spec.Versioned.Switches.{panics_if}
use go_eth2_client.Api.Blinded
use go_eth2_client.Api.SignedBlinded
use go_eth2_client.Api.SignedBlinded.{VersionedSignedBlindedBeaconBlock}
use go_eth2_client.Api.SignedBlinded.Agreement.{blinded_of, lacks_message, signed_blinded_agree}

abbrev methods : {Rest : Type 0} → Methods Rest
methods = record {
  hash_block = λ b. returns (ok b.state_root);
  hash_body = λ b. returns (ok b.graffiti);
  print_block = λ b. [];
  print_signed = λ b. [];
}

abbrev unfilled : VersionedSignedBlindedBeaconBlock
unfilled = record {
  version = 3;
  bellatrix_data = none;
  capella_data = some (record { message = none; signature = [] });
}

slot_refused : SignedBlinded.slot unfilled ≡ err (codes "no capella block")
unfolding SignedBlinded.slot
slot_refused = refl

state_root_panics : SignedBlinded.state_root unfilled ≡ panics
unfolding SignedBlinded.state_root
state_root_panics = refl

signed_blinded_agree_example :
    (SignedBlinded.slot unfilled ≡ Blinded.slot (blinded_of unfilled))
    × (SignedBlinded.attestations unfilled ≡ Blinded.attestations (blinded_of unfilled))
    × (SignedBlinded.parent_root unfilled
        ≡ panics_if (lacks_message unfilled) (returns (Blinded.parent_root (blinded_of unfilled))))
    × (SignedBlinded.state_root unfilled
        ≡ panics_if (lacks_message unfilled) (returns (Blinded.state_root (blinded_of unfilled))))
    × (SignedBlinded.root methods methods unfilled
        ≡ panics_if (lacks_message unfilled) (Blinded.root methods methods (blinded_of unfilled)))
    × (SignedBlinded.body_root methods methods unfilled
        ≡ panics_if
            (lacks_message unfilled)
            (Blinded.body_root methods methods (blinded_of unfilled)))
signed_blinded_agree_example = signed_blinded_agree methods methods unfilled
