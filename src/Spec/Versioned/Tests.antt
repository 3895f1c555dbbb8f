-- ===== src/Spec/Versioned/Tests.antt =====
-- A signed Altair block without a message, and one with a message but no body.
use go_eth2_client.Prelude.{
  to_lower, ◌↔◌, codes, returns, panics, ok, err, Option, none, some, [], ◌∷◌, ◌≡◌, refl,
}
use go_eth2_client.Spec.DataVersion.{altair, marshal_json, unmarshal_json}
use go_eth2_client.Spec.DataVersion.Texts.{unmarshal_json-marshal_json}
use go_eth2_client.Spec.Blocks.{BeaconBlock, SignedBeaconBlock, AltairRest}
use go_eth2_client.Spec.Versioned.{VersionedSignedBeaconBlock, Methods, AllMethods}
use go_eth2_client.Spec.Versioned.Block
use go_eth2_client.Spec.Versioned.Signed
use go_eth2_client.Spec.Versioned.Switches.{unsigned}
use go_eth2_client.Spec.Versioned.Agreement.{signed_agree}

abbrev methods : {Rest : Type 0} → Methods Rest
methods = record {
  hash_block = λ b. returns (ok b.state_root);
  hash_body = λ b. returns (ok b.graffiti);
  print_block = λ b. [];
  print_signed = λ b. [];
}

abbrev all : AllMethods
all = record {
  phase0_methods = methods;
  altair_methods = methods;
  bellatrix_methods = methods;
  capella_methods = methods;
}

abbrev block : BeaconBlock AltairRest
block = record {
  slot = 7;
  proposer_index = 1;
  parent_root = 5 ∷ [];
  state_root = 6 ∷ [];
  body = none;
}

abbrev signed_of : Option (SignedBeaconBlock AltairRest) → VersionedSignedBeaconBlock
signed_of s = record {
  version = altair;
  phase0_data = none;
  altair_data = s;
  bellatrix_data = none;
  capella_data = none;
}

abbrev empty_message : VersionedSignedBeaconBlock
empty_message = signed_of (some (record { message = none; signature = [] }))

abbrev no_body_block : VersionedSignedBeaconBlock
no_body_block = signed_of (some (record { message = some block; signature = [] }))

empty_message_slot : Signed.slot all empty_message ≡ err (codes "no altair block")
unfolding Signed.slot
empty_message_slot = refl

empty_message_parent : Signed.parent_root all empty_message ≡ panics
unfolding Signed.parent_root
empty_message_parent = refl

signed_agree_example :
    (Signed.slot all no_body_block ≡ Block.slot all (unsigned no_body_block))
    × (Signed.attestations all no_body_block ≡ Block.attestations all (unsigned no_body_block))
    × (Signed.root all no_body_block ≡ Block.root all (unsigned no_body_block))
    × (Signed.body_root all no_body_block ≡ Block.body_root all (unsigned no_body_block))
    × (Signed.parent_root all no_body_block
        ≡ returns (Block.parent_root all (unsigned no_body_block)))
    × (Signed.state_root all no_body_block
        ≡ returns (Block.state_root all (unsigned no_body_block)))
    × (Signed.attester_slashings all no_body_block ≡ panics)
    × (Signed.proposer_slashings all no_body_block ≡ panics)
signed_agree_example = signed_agree all no_body_block

unmarshal_json-marshal_json_example :
    (unmarshal_json (codes "\"Altair\"") ≡ ok altair)
    ↔ (marshal_json altair ≡ returns (ok (to_lower (codes "\"Altair\""))))
unmarshal_json-marshal_json_example = unmarshal_json-marshal_json (codes "\"Altair\"") altair
