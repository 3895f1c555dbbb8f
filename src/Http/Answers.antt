-- ===== src/Http/Answers.antt =====
-- Runs of a client against a node that answers every request, and the theorems about what is checked
-- at these runs.
use go_eth2_client.Prelude.{
  arith, ℕ, ◌+◌, Text, Bytes, Root, codes, Result, ok, err, returns, panics, true, false, Option,
  none, some, List, [], ◌∷◌, All, ◌≡◌, refl,
}
use go_eth2_client.Spec.DataVersion.{DataVersion, altair}
use go_eth2_client.Spec.Blocks.{
  BeaconBlock, BeaconBlockBody, SignedBeaconBlock, AltairRest, Attestation, AttestationData,
}
use go_eth2_client.Spec.Versioned.{Methods, AllMethods}
use go_eth2_client.Spec.Versioned.Block
use go_eth2_client.Http.Service.{Service, Server, SpecMap, integer, pos}
use go_eth2_client.Http.Get.{get}
use go_eth2_client.Http.Spec.{copied, spec, slots_per_epoch}
use go_eth2_client.Http.Blocks.{
  ForkDecoders, as_altair, beacon_block_proposal, beacon_block_proposal_v2,
}
use go_eth2_client.Http.Blocks.Proposed.{shown_by, beacon_block_proposal-IsRequested}
use go_eth2_client.Http.Queries.{attestation_data, attestation_pool, aggregate_attestation}
use go_eth2_client.Http.Queries.Checked.{IsAtSlot, IsAggregate, checked_attestations}
use go_eth2_client.Http.Duties.{ProposerDuty, proposer_duties}
use go_eth2_client.Http.Duties.Range.{IsDueFrom, proposer_duties-IsDue}
use go_eth2_client.Codec.Decimal.{format_uint}
use go_eth2_client.Http.Queries.{Finality}
use go_eth2_client.Http.Duties.{slot_from_state_id, epoch_from_state_id}
use go_eth2_client.Http.Duties.StateId.{state_id-format_uint}

-- The world counts the requests.
abbrev pub node : Server
node = record {
  World = ℕ;
  valid_url = λ url. ok tt;
  respond = λ r w. (ok (record { status_code = 200; content = ok (1 ∷ []) }), w + 1);
}

abbrev kept_spec : SpecMap
kept_spec = (codes "SLOTS_PER_EPOCH", integer 32) ∷ []

abbrev pub client : Service
client = record {
  base = codes "http://node/";
  address = codes "node";
  genesis = none;
  spec = some kept_spec;
  deposit_contract = none;
  fork_schedule = none;
  node_version = [];
  supports_v2_beacon_blocks = true;
  supports_v2_beacon_state = false;
  supports_v2_validator_blocks = false;
  user_index_chunk_size = pos 0;
  user_pubkey_chunk_size = pos 0;
}

abbrev reveal : Bytes
reveal = 9 ∷ 9 ∷ []

abbrev body : BeaconBlockBody AltairRest
body = record {
  randao_reveal = reveal;
  eth1_data = none;
  graffiti = copied 32 (7 ∷ []);
  proposer_slashings = [];
  attester_slashings = [];
  attestations = [];
  deposits = [];
  voluntary_exits = [];
  rest = record { sync_aggregate = none };
}

abbrev block : BeaconBlock AltairRest
block = record {
  slot = 12;
  proposer_index = 1;
  parent_root = [];
  state_root = [];
  body = some body;
}

abbrev blocks : ForkDecoders BeaconBlock
blocks = record {
  phase0_decoder = λ b. returns (err (codes "other fork"));
  altair_decoder = λ b. returns (ok (some block));
  bellatrix_decoder = λ b. returns (err (codes "other fork"));
  capella_decoder = λ b. returns (err (codes "other fork"));
}

abbrev methods : {Rest : Type 0} → Methods Rest
methods = record {
  hash_block = λ b. panics;
  hash_body = λ b. panics;
  print_block = λ b. [];
  print_signed = λ b. [];
}

abbrev all : AllMethods
all = record {
  phase0_methods = methods;
  altair_methods = methods;
  bellatrix_methods = methods;
  capella_methods = methods;
}

abbrev pub version : Bytes → Result DataVersion
version b = ok altair

proposal :
    beacon_block_proposal node version blocks 12 reveal (7 ∷ []) client 0
    ≡ (returns (ok (as_altair (some block))), client, 1)
unfolding beacon_block_proposal beacon_block_proposal_v2 get
proposal = refl

beacon_block_proposal-IsRequested_example :
    (shown_by (as_altair (some block)) ≡ some (12, reveal, copied 32 (7 ∷ [])))
    × (Block.slot all (as_altair (some block)) ≡ ok 12)
beacon_block_proposal-IsRequested_example =
    beacon_block_proposal-IsRequested node version blocks all 12 reveal (7 ∷ []) client 0 proposal

abbrev pub signed_blocks : ForkDecoders SignedBeaconBlock
signed_blocks = record {
  phase0_decoder = λ b. returns (ok none);
  altair_decoder = λ b. returns (err (codes "no block"));
  bellatrix_decoder = λ b. returns (ok none);
  capella_decoder = λ b. returns (ok none);
}

abbrev data_at_five : AttestationData
data_at_five = record { slot = 5; index = 2; beacon_block_root = []; source = none; target = none }

data_fetched :
    attestation_data node 5 (λ b. ok (some data_at_five)) 2 client 0
    ≡ (returns (ok data_at_five), client, 1)
unfolding attestation_data get
data_fetched = refl

abbrev attestation : Attestation
attestation = record { aggregation_bits = []; attestation_data = some data_at_five; signature = [] }

abbrev pool : List (Option Attestation)
pool = some attestation ∷ some attestation ∷ []

pool_fetched :
    attestation_pool node 5 (λ b. ok (some pool)) client 0 ≡ (returns (ok pool), client, 1)
unfolding attestation_pool get
pool_fetched = refl

abbrev hash_data : AttestationData → Result Root
hash_data d = ok (d.slot ∷ d.index ∷ [])

aggregate_fetched :
    aggregate_attestation node 5 hash_data (5 ∷ 2 ∷ []) (λ b. ok (some attestation)) client 0
    ≡ (returns (ok (some attestation)), client, 1)
unfolding aggregate_attestation get
aggregate_fetched = refl

checked_attestations_example :
    (data_at_five.slot ≡ 5)
    × (data_at_five.index ≡ 2)
    × All (IsAtSlot 5) pool
    × IsAggregate node 5 hash_data (5 ∷ 2 ∷ []) (some attestation)
checked_attestations_example =
    checked_attestations node 5 hash_data (5 ∷ 2 ∷ []) 2 (λ b. ok (some data_at_five))
      (λ b. ok (some pool)) (λ b. ok (some attestation)) client 0 data_fetched pool_fetched
      aggregate_fetched

abbrev duty : ℕ → ℕ → ProposerDuty
duty slot index = record { public_key = []; slot = slot; validator_index = index }

abbrev duties : List (Option ProposerDuty)
duties = some (duty 32 1) ∷ some (duty 63 2) ∷ []

abbrev no_spec : Bytes → Result (List (Text × Text))
no_spec b = err (codes "no specification")

duties_fetched :
    proposer_duties node no_spec (λ b. ok duties) 1 (2 ∷ []) client 0
    ≡ (returns (ok (duty 63 2 ∷ [])), client, 1)
unfolding proposer_duties get slots_per_epoch spec
duties_fetched = refl

proposer_duties-IsDue_example :
    IsDueFrom node no_spec (λ b. ok duties) 1 (2 ∷ []) client 0 (duty 63 2 ∷ [])
proposer_duties-IsDue_example =
    proposer_duties-IsDue node no_spec (λ b. ok duties) 1 (2 ∷ []) client 0 duties_fetched

abbrev no_finality : Bytes → Result (Option Finality)
no_finality b = err (codes "no finality")

state_id-format_uint_example :
    (slot_from_state_id node no_spec (format_uint 70) client 0 ≡ (returns (ok 70), client, 0))
    × (epoch_from_state_id node no_spec no_finality (format_uint 70) client 0
        ≡ (returns (ok 2), client, 0))
state_id-format_uint_example =
    state_id-format_uint node no_spec no_finality 70 31 kept_spec client 0 (omega arith) refl refl
