-- ===== src/Http/Runs.antt =====
-- Runs that ask for the specification and for validators, and the theorems about them at these runs.
use go_eth2_client.Prelude.{
  ValidatorIndex, err, false, length, replicate, BlsPubKey, arith, ◌≤◌, ◌≢◌, All, ℕ, Text, Bytes,
  codes, Result, ok, returns, Option, none, some, List, [], ◌∷◌, ◌≡◌, refl,
}
use go_eth2_client.Http.Service.{negsuc, Service, pos}
use go_eth2_client.Http.Get.{get}
use go_eth2_client.Http.Spec.{spec}
use go_eth2_client.Codec.Decimal.{format_uint}
use go_eth2_client.Codec.Hex.{format_hex}
use go_eth2_client.Http.Static.{Decoders}
use go_eth2_client.Http.Chunks.{
  chunks, many, validators, validators_by_pubkey, validator_balances, index_chunk_size,
  pubkey_chunk_size, validator_words, balance_words,
}
use go_eth2_client.Http.Chunks.Calls.{validators-deep}
use go_eth2_client.Http.Spec.{config, find_value, fetch_spec}
use go_eth2_client.Http.Spec.Kept.{spec_again}
use go_eth2_client.Http.Service.{domain_type}
use go_eth2_client.Http.Answers.{version, signed_blocks}
use go_eth2_client.Http.Static.{
  genesis, deposit_contract, fork_schedule, node_version, fetch_genesis, fetch_deposit_contract,
  fetch_fork_schedule, fetch_node_version,
}
use go_eth2_client.Http.Blocks.{check_api_versioning, signed_beacon_block, signed_beacon_block_v2}
use go_eth2_client.Http.New.{
  Parameters, Parameter, with_address, parse_and_check_parameters, full_address, new,
  fetch_static_values,
}
use go_eth2_client.Http.New.Started.{IsNew, new-IsNew}
use go_eth2_client.Http.Chunks.{url}
use go_eth2_client.Http.Chunks.Lengths.{length-url}
use go_eth2_client.Http.Answers.{node, client}
use go_eth2_client.Api.Event.{Formats}
use go_eth2_client.Http.Events.{events}
use go_eth2_client.Http.Events.Dispatch.{IsUnderstood, events-IsUnderstood}

-- A response without the key of the mask, and with the number of slots.
abbrev texts : List (Text × Text)
texts = (codes "SLOTS_PER_EPOCH", codes "32") ∷ []

mask_default :
    find_value (codes "DOMAIN_APPLICATION_MASK") (config texts)
    ≡ some (domain_type (0 ∷ 0 ∷ 0 ∷ 1 ∷ []))
unfolding config
mask_default = refl

-- A client that has no specification yet.
abbrev fresh : Service
fresh = record client { spec = none }

abbrev told : Bytes → Result (List (Text × Text))
told b = ok texts

spec_fetched :
    spec node told fresh 0
    ≡ (returns (ok (config texts)), record fresh { spec = some (config texts) }, 1)
unfolding spec fetch_spec get
spec_fetched = refl

spec_again_example :
    spec node told (record fresh { spec = some (config texts) }) 9
    ≡ (returns (ok (config texts)), record fresh { spec = some (config texts) }, 9)
spec_again_example = spec_again node told fresh 0 9 spec_fetched

abbrev decoders : Decoders
decoders = record {
  genesis_data = λ b. ok none;
  deposit_contract_data = λ b. ok none;
  fork_schedule_data = λ b. ok none;
  node_version_data = λ b. ok (some (codes "teku"));
}

-- Three validators, two at a time.
abbrev small : Service
small = record client { user_index_chunk_size = pos 2; user_pubkey_chunk_size = pos 2 }

abbrev balances : Bytes → Result (Option (List (Option (ValidatorIndex × ℕ))))
balances b = ok (some (some (1, 32) ∷ []))

two_requests :
    validator_balances node decoders balances (codes "head") (1 ∷ 2 ∷ 3 ∷ []) small 0
    ≡ (returns (ok ((1, 32) ∷ (1, 32) ∷ [])), small, 2)
unfolding validator_balances index_chunk_size chunks get
two_requests = refl

validators-deep_example :
    (many node format_uint
        (index_chunk_size node decoders)
        validator_words
        balances
        7
        (codes "head")
        (1 ∷ 2 ∷ 3 ∷ [])
        small
        0
      ≡ validators node decoders balances (codes "head") (1 ∷ 2 ∷ 3 ∷ []) small 0)
    × (many node format_hex
          (pubkey_chunk_size node decoders)
          validator_words
          balances
          7
          (codes "head")
          ((1 ∷ []) ∷ [])
          small
          0
        ≡ validators_by_pubkey node decoders balances (codes "head") ((1 ∷ []) ∷ []) small 0)
    × (many node format_uint
          (index_chunk_size node decoders)
          balance_words
          balances
          7
          (codes "head")
          (1 ∷ 2 ∷ 3 ∷ [])
          small
          0
        ≡ validator_balances node decoders balances (codes "head") (1 ∷ 2 ∷ 3 ∷ []) small 0)
validators-deep_example =
    validators-deep node decoders balances 5 (codes "head") (1 ∷ 2 ∷ 3 ∷ []) ((1 ∷ []) ∷ []) small 0

-- Blocks are understood, and heads are refused.
abbrev formats : Formats
formats = record {
  HeadEvent = ℕ;
  BlockEvent = ℕ;
  Attestation = ℕ;
  SignedVoluntaryExit = ℕ;
  FinalizedCheckpointEvent = ℕ;
  ChainReorgEvent = ℕ;
  SignedContributionAndProof = ℕ;
  decode_head = λ b. err (codes "bad head");
  decode_block = λ b. ok 1;
  decode_attestation = λ b. ok 2;
  decode_voluntary_exit = λ b. ok 3;
  decode_finalized_checkpoint = λ b. ok 4;
  decode_chain_reorg = λ b. ok 5;
  decode_contribution_and_proof = λ b. ok 6;
}

abbrev head_and_block : List Text
head_and_block = codes "head" ∷ codes "block" ∷ []

events_url :
    events (λ url. ok tt) head_and_block ≡ ok (codes "eth/v1/events?topics=head&topics=block")
unfolding events
events_url = refl

events-IsUnderstood_example :
    (head_and_block ≢ []) × All (IsUnderstood formats (7 ∷ [])) head_and_block
events-IsUnderstood_example =
    events-IsUnderstood formats (λ url. ok tt) head_and_block (7 ∷ []) events_url

-- A client is made for an address without a scheme. The node refuses the version 2 of blocks.
abbrev at_node : List Parameter
at_node = with_address (codes "node") ∷ []

abbrev base_of : Text → Result Text
base_of url = ok url

abbrev started : Service
started = record client {
  spec = some (config texts);
  node_version = codes "teku";
  supports_v2_beacon_blocks = false;
  user_index_chunk_size = negsuc 0;
  user_pubkey_chunk_size = negsuc 0;
}

new-started :
    new node decoders told version signed_blocks base_of (pos 1) at_node 0
    ≡ (returns (ok started), 6)
unfolding new parse_and_check_parameters fetch_static_values genesis fetch_genesis spec fetch_spec
    deposit_contract fetch_deposit_contract fork_schedule fetch_fork_schedule node_version
    fetch_node_version check_api_versioning signed_beacon_block signed_beacon_block_v2 get
new-started = refl

new-IsNew_example :
    (p : Parameters) × (parse_and_check_parameters (pos 1) at_node ≡ ok p)
    × (base : Text) × (base_of (full_address p.address) ≡ ok base)
    × IsNew p base started
new-IsNew_example =
    new-IsNew node decoders told version signed_blocks base_of (pos 1) at_node 0 new-started

-- One public key.
abbrev keys : List BlsPubKey
keys = replicate 48 1 ∷ []

length-url_example :
    length (
      url node format_hex
        (pubkey_chunk_size node decoders)
        validator_words
        balances
        (codes "head")
        keys)
    ≤ 8000
length-url_example =
    length-url node (pubkey_chunk_size node decoders) balances (codes "teku") (codes "head") keys
      (refl, tt) (omega arith) (omega arith)
