-- ===== src/Json/Chain.antt =====
-- The JSON of what a node tells of the chain: api/v1/ and spec/phase0/fork.go and their likes.
pub mod Kept
use go_eth2_client.Prelude.{
  Bool, Domain, Option, Root, Version, codes, Text, Result, ok, err, ◌>>=◌,
}
use go_eth2_client.Codec.Decimal.{format_uint}
use go_eth2_client.Codec.Hex.{format_hex}
use go_eth2_client.Codec.Fields.{nested, written, need, read_array, read_array_of, read_uint}
use go_eth2_client.Api.ValidatorState.{Validator}
use go_eth2_client.Http.Queries.{Finality}
use go_eth2_client.Http.Service.{DepositContract, Fork}
use go_eth2_client.Multi.Call.{SyncState}
use go_eth2_client.Json.Attestations.{CheckpointJson, marshal_checkpoint, unmarshal_checkpoint}
use go_eth2_client.Json.Headers.{
  SignedBeaconBlockHeaderJson, marshal_signed_beacon_block_header,
  unmarshal_signed_beacon_block_header,
}
use go_eth2_client.Spec.Blocks.{Checkpoint, SignedBeaconBlockHeader}

pub record DepositContractJson : Type 0 where
  pub chain_id : Text
  pub contract_address : Text

unfoldable pub marshal_deposit_contract : DepositContract → DepositContractJson
marshal_deposit_contract x = record {
  chain_id = format_uint x.chain_id;
  contract_address = format_hex x.contract_address;
}

unfoldable pub unmarshal_deposit_contract : DepositContractJson → Result DepositContract
unmarshal_deposit_contract j = do
  chain_id ← read_uint (codes "chain ID") j.chain_id
  contract_address ← read_array_of 20 (codes "address") j.contract_address
  ok (record { chain_id = chain_id; contract_address = contract_address })

pub record SyncStateJson : Type 0 where
  pub head_slot : Text
  pub sync_distance : Text
  pub is_optimistic : Bool
  pub is_syncing : Bool

unfoldable pub marshal_sync_state : SyncState → SyncStateJson
marshal_sync_state x = record {
  head_slot = format_uint x.head_slot;
  sync_distance = format_uint x.sync_distance;
  is_optimistic = x.is_optimistic;
  is_syncing = x.is_syncing;
}

unfoldable pub unmarshal_sync_state : SyncStateJson → Result SyncState
unmarshal_sync_state j = do
  head_slot ← read_uint (codes "head slot") j.head_slot
  sync_distance ← read_uint (codes "sync distance") j.sync_distance
  ok (record {
    head_slot = head_slot;
    sync_distance = sync_distance;
    is_optimistic = j.is_optimistic;
    is_syncing = j.is_syncing;
  })

pub record FinalityJson : Type 0 where
  pub finalized : Option CheckpointJson
  pub justified : Option CheckpointJson
  pub previous_justified : Option CheckpointJson

unfoldable pub marshal_finality : Finality → FinalityJson
marshal_finality x = record {
  finalized = written marshal_checkpoint x.finalized;
  justified = written marshal_checkpoint x.justified;
  previous_justified = written marshal_checkpoint x.previous_justified;
}

-- The checks after `encoding/json` has read the values within.
unfoldable pub unpack_finality :
    FinalityJson → Option Checkpoint → Option Checkpoint → Option Checkpoint → Result Finality
unpack_finality j given_finalized given_justified given_previous_justified = do
  finalized ← need (codes "finalized checkpoint missing") given_finalized
  justified ← need (codes "justified checkpoint missing") given_justified
  previous_justified ← need (codes "previous justified checkpoint missing") given_previous_justified
  ok (record {
    finalized = finalized;
    justified = justified;
    previous_justified = previous_justified;
  })

unfoldable pub unmarshal_finality : FinalityJson → Result Finality
unfolding unpack_finality
unmarshal_finality j = do
  given_finalized ← nested unmarshal_checkpoint j.finalized
  given_justified ← nested unmarshal_checkpoint j.justified
  given_previous_justified ← nested unmarshal_checkpoint j.previous_justified
  unpack_finality j given_finalized given_justified given_previous_justified

pub record BeaconBlockHeader : Type 0 where
  pub root : Root
  pub canonical : Bool
  pub header : Option SignedBeaconBlockHeader

pub record BeaconBlockHeaderJson : Type 0 where
  pub root : Text
  pub canonical : Bool
  pub header : Option SignedBeaconBlockHeaderJson

unfoldable pub marshal_beacon_block_header : BeaconBlockHeader → BeaconBlockHeaderJson
marshal_beacon_block_header x = record {
  root = format_hex x.root;
  canonical = x.canonical;
  header = written marshal_signed_beacon_block_header x.header;
}

-- The checks after `encoding/json` has read the values within.
unfoldable pub unpack_beacon_block_header :
    BeaconBlockHeaderJson → Option SignedBeaconBlockHeader → Result BeaconBlockHeader
unpack_beacon_block_header j given_header = do
  root ← read_array_of 32 (codes "root") j.root
  header ← need (codes "header missing") given_header
  ok (record { root = root; canonical = j.canonical; header = header })

unfoldable pub unmarshal_beacon_block_header : BeaconBlockHeaderJson → Result BeaconBlockHeader
unfolding unpack_beacon_block_header
unmarshal_beacon_block_header j = do
  given_header ← nested unmarshal_signed_beacon_block_header j.header
  unpack_beacon_block_header j given_header

pub record ForkJson : Type 0 where
  pub previous_version : Text
  pub current_version : Text
  pub epoch : Text

unfoldable pub marshal_fork : Fork → ForkJson
marshal_fork x = record {
  previous_version = format_hex x.previous_version;
  current_version = format_hex x.current_version;
  epoch = format_uint x.epoch;
}

unfoldable pub unmarshal_fork : ForkJson → Result Fork
unmarshal_fork j = do
  previous_version ← read_array 4 (codes "previous version") j.previous_version
  current_version ← read_array 4 (codes "current version") j.current_version
  epoch ← read_uint (codes "epoch") j.epoch
  ok (record {
    previous_version = previous_version;
    current_version = current_version;
    epoch = epoch;
  })

pub record ForkData : Type 0 where
  pub current_version : Version
  pub genesis_validators_root : Root

pub record ForkDataJson : Type 0 where
  pub current_version : Text
  pub genesis_validators_root : Text

unfoldable pub marshal_fork_data : ForkData → ForkDataJson
marshal_fork_data x = record {
  current_version = format_hex x.current_version;
  genesis_validators_root = format_hex x.genesis_validators_root;
}

unfoldable pub unmarshal_fork_data : ForkDataJson → Result ForkData
unmarshal_fork_data j = do
  current_version ← read_array 4 (codes "current version") j.current_version
  genesis_validators_root ←
      read_array 32 (codes "genesis validators root") j.genesis_validators_root
  ok (record {
    current_version = current_version;
    genesis_validators_root = genesis_validators_root;
  })

pub record SigningData : Type 0 where
  pub object_root : Root
  pub domain : Domain

pub record SigningDataJson : Type 0 where
  pub object_root : Text
  pub domain : Text

unfoldable pub marshal_signing_data : SigningData → SigningDataJson
marshal_signing_data x = record {
  object_root = format_hex x.object_root;
  domain = format_hex x.domain;
}

unfoldable pub unmarshal_signing_data : SigningDataJson → Result SigningData
unmarshal_signing_data j = do
  object_root ← read_array 32 (codes "object root") j.object_root
  domain ← read_array 32 (codes "domain") j.domain
  ok (record { object_root = object_root; domain = domain })

pub record ValidatorJson : Type 0 where
  pub public_key : Text
  pub withdrawal_credentials : Text
  pub effective_balance : Text
  pub slashed : Bool
  pub activation_eligibility_epoch : Text
  pub activation_epoch : Text
  pub exit_epoch : Text
  pub withdrawable_epoch : Text

unfoldable pub marshal_validator : Validator → ValidatorJson
marshal_validator x = record {
  public_key = format_hex x.public_key;
  withdrawal_credentials = format_hex x.withdrawal_credentials;
  effective_balance = format_uint x.effective_balance;
  slashed = x.slashed;
  activation_eligibility_epoch = format_uint x.activation_eligibility_epoch;
  activation_epoch = format_uint x.activation_epoch;
  exit_epoch = format_uint x.exit_epoch;
  withdrawable_epoch = format_uint x.withdrawable_epoch;
}

unfoldable pub unmarshal_validator : ValidatorJson → Result Validator
unmarshal_validator j = do
  public_key ← read_array_of 48 (codes "public key") j.public_key
  withdrawal_credentials ←
      read_array_of 32 (codes "withdrawal credentials") j.withdrawal_credentials
  effective_balance ← read_uint (codes "effective balance") j.effective_balance
  activation_eligibility_epoch ←
      read_uint (codes "activation eligibility epoch") j.activation_eligibility_epoch
  activation_epoch ← read_uint (codes "activation epoch") j.activation_epoch
  exit_epoch ← read_uint (codes "exit epoch") j.exit_epoch
  withdrawable_epoch ← read_uint (codes "withdrawable epoch") j.withdrawable_epoch
  ok (record {
    public_key = public_key;
    withdrawal_credentials = withdrawal_credentials;
    effective_balance = effective_balance;
    slashed = j.slashed;
    activation_eligibility_epoch = activation_eligibility_epoch;
    activation_epoch = activation_epoch;
    exit_epoch = exit_epoch;
    withdrawable_epoch = withdrawable_epoch;
  })
