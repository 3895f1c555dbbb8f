-- ===== src/Http/Blinded/Tests.antt =====
-- A blinded block of Capella is proposed.
use go_eth2_client.Prelude.{
  Bytes, Result, ok, err, codes, returns, true, none, some, [], ◌∷◌, ◌≡◌, refl,
}
use go_eth2_client.Spec.DataVersion.{DataVersion}
use go_eth2_client.Spec.Blocks.{BeaconBlock}
use go_eth2_client.Api.Blinded
use go_eth2_client.Http.Get.{get}
use go_eth2_client.Http.Spec.{copied}
use go_eth2_client.Http.Answers.{node, client}
use go_eth2_client.Http.Blinded.{
  BlindedDecoders, as_capella, blinded_proposal, blinded_beacon_block_proposal,
}
use go_eth2_client.Http.Blinded.Proposed.{IsWanted, blinded_proposal-IsRequested}

abbrev block : BeaconBlock Blinded.BlindedCapellaRest
block = record {
  slot = 12;
  proposer_index = 1;
  parent_root = [];
  state_root = [];
  body = some (record {
    randao_reveal = 9 ∷ 9 ∷ [];
    eth1_data = none;
    graffiti = copied 32 (7 ∷ []);
    proposer_slashings = [];
    attester_slashings = [];
    attestations = [];
    deposits = [];
    voluntary_exits = [];
    rest = record {
      sync_aggregate = none;
      execution_payload_header = none;
      bls_to_execution_changes = [];
    };
  });
}

abbrev decoders : BlindedDecoders
decoders = record {
  bellatrix_decoder = λ b. returns (err (codes "other fork"));
  capella_decoder = λ b. returns (ok (some block));
}

abbrev version : Bytes → Result DataVersion
version b = ok 3

proposal :
    blinded_beacon_block_proposal node version decoders 12 (9 ∷ 9 ∷ []) (7 ∷ []) client 0
    ≡ (returns (ok (as_capella (some block))), client, 1)
unfolding blinded_beacon_block_proposal blinded_proposal get
proposal = refl

proposal_empty : Blinded.is_empty (as_capella (some block)) ≡ true
unfolding Blinded.is_empty
proposal_empty = refl

no_header :
    Blinded.timestamp (as_capella (some block))
    ≡ err (codes "no capella block body execution payload header")
unfolding Blinded.timestamp
no_header = refl

blinded_proposal-IsRequested_example :
    IsWanted 12 (9 ∷ 9 ∷ []) (copied 32 (7 ∷ [])) (as_capella (some block))
blinded_proposal-IsRequested_example =
    blinded_proposal-IsRequested node version decoders 12 (9 ∷ 9 ∷ []) (7 ∷ []) client 0 proposal
