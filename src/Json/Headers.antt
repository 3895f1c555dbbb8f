-- ===== src/Json/Headers.antt =====
-- The JSON of headers, slashings and exits: spec/phase0/beaconblockheader.go and its likes.
pub mod Kept
use go_eth2_client.Prelude.{Option, codes, Text, Result, ok, err, ◌>>=◌}
use go_eth2_client.Codec.Decimal.{format_uint}
use go_eth2_client.Codec.Hex.{format_hex}
use go_eth2_client.Codec.Fields.{nested, written, decode_array, need, read_array, read_uint}
use go_eth2_client.Spec.Blocks.{
  BeaconBlockHeader, ProposerSlashing, SignedBeaconBlockHeader, SignedVoluntaryExit, VoluntaryExit,
}

pub record BeaconBlockHeaderJson : Type 0 where
  pub slot : Text
  pub proposer_index : Text
  pub parent_root : Text
  pub state_root : Text
  pub body_root : Text

unfoldable pub marshal_beacon_block_header : BeaconBlockHeader → BeaconBlockHeaderJson
marshal_beacon_block_header x = record {
  slot = format_uint x.slot;
  proposer_index = format_uint x.proposer_index;
  parent_root = format_hex x.parent_root;
  state_root = format_hex x.state_root;
  body_root = format_hex x.body_root;
}

unfoldable pub unmarshal_beacon_block_header : BeaconBlockHeaderJson → Result BeaconBlockHeader
unmarshal_beacon_block_header j = do
  slot ← read_uint (codes "slot") j.slot
  proposer_index ← read_uint (codes "proposer index") j.proposer_index
  parent_root ← read_array 32 (codes "parent root") j.parent_root
  state_root ← read_array 32 (codes "state root") j.state_root
  body_root ← read_array 32 (codes "body root") j.body_root
  ok (record {
    slot = slot;
    proposer_index = proposer_index;
    parent_root = parent_root;
    state_root = state_root;
    body_root = body_root;
  })

pub record SignedBeaconBlockHeaderJson : Type 0 where
  pub message : Option BeaconBlockHeaderJson
  pub signature : Text

unfoldable pub marshal_signed_beacon_block_header :
    SignedBeaconBlockHeader → SignedBeaconBlockHeaderJson
marshal_signed_beacon_block_header x = record {
  message = written marshal_beacon_block_header x.message;
  signature = format_hex x.signature;
}

-- The checks after `encoding/json` has read the values within.
unfoldable pub unpack_signed_beacon_block_header :
    SignedBeaconBlockHeaderJson → Option BeaconBlockHeader → Result SignedBeaconBlockHeader
unpack_signed_beacon_block_header j given_message = do
  message ← need (codes "message missing") given_message
  signature ← decode_array 96 (codes "signature") j.signature
  ok (record { message = message; signature = signature })

unfoldable pub unmarshal_signed_beacon_block_header :
    SignedBeaconBlockHeaderJson → Result SignedBeaconBlockHeader
unfolding unpack_signed_beacon_block_header
unmarshal_signed_beacon_block_header j = do
  given_message ← nested unmarshal_beacon_block_header j.message
  unpack_signed_beacon_block_header j given_message

pub record ProposerSlashingJson : Type 0 where
  pub signed_header1 : Option SignedBeaconBlockHeaderJson
  pub signed_header2 : Option SignedBeaconBlockHeaderJson

unfoldable pub marshal_proposer_slashing : ProposerSlashing → ProposerSlashingJson
marshal_proposer_slashing x = record {
  signed_header1 = written marshal_signed_beacon_block_header x.signed_header1;
  signed_header2 = written marshal_signed_beacon_block_header x.signed_header2;
}

-- The checks after `encoding/json` has read the values within.
unfoldable pub unpack_proposer_slashing :
    ProposerSlashingJson
    → Option SignedBeaconBlockHeader
    → Option SignedBeaconBlockHeader
    → Result ProposerSlashing
unpack_proposer_slashing j given_signed_header1 given_signed_header2 = do
  signed_header1 ← need (codes "signed header 1 missing") given_signed_header1
  signed_header2 ← need (codes "signed header 2 missing") given_signed_header2
  ok (record { signed_header1 = signed_header1; signed_header2 = signed_header2 })

unfoldable pub unmarshal_proposer_slashing : ProposerSlashingJson → Result ProposerSlashing
unfolding unpack_proposer_slashing
unmarshal_proposer_slashing j = do
  given_signed_header1 ← nested unmarshal_signed_beacon_block_header j.signed_header1
  given_signed_header2 ← nested unmarshal_signed_beacon_block_header j.signed_header2
  unpack_proposer_slashing j given_signed_header1 given_signed_header2

pub record VoluntaryExitJson : Type 0 where
  pub epoch : Text
  pub validator_index : Text

unfoldable pub marshal_voluntary_exit : VoluntaryExit → VoluntaryExitJson
marshal_voluntary_exit x = record {
  epoch = format_uint x.epoch;
  validator_index = format_uint x.validator_index;
}

unfoldable pub unmarshal_voluntary_exit : VoluntaryExitJson → Result VoluntaryExit
unmarshal_voluntary_exit j = do
  epoch ← read_uint (codes "epoch") j.epoch
  validator_index ← read_uint (codes "validator index") j.validator_index
  ok (record { epoch = epoch; validator_index = validator_index })

pub record SignedVoluntaryExitJson : Type 0 where
  pub message : Option VoluntaryExitJson
  pub signature : Text

unfoldable pub marshal_signed_voluntary_exit : SignedVoluntaryExit → SignedVoluntaryExitJson
marshal_signed_voluntary_exit x = record {
  message = written marshal_voluntary_exit x.message;
  signature = format_hex x.signature;
}

-- The checks after `encoding/json` has read the values within.
unfoldable pub unpack_signed_voluntary_exit :
    SignedVoluntaryExitJson → Option VoluntaryExit → Result SignedVoluntaryExit
unpack_signed_voluntary_exit j given_message = do
  message ← need (codes "message missing") given_message
  signature ← decode_array 96 (codes "signature") j.signature
  ok (record { message = message; signature = signature })

unfoldable pub unmarshal_signed_voluntary_exit :
    SignedVoluntaryExitJson → Result SignedVoluntaryExit
unfolding unpack_signed_voluntary_exit
unmarshal_signed_voluntary_exit j = do
  given_message ← nested unmarshal_voluntary_exit j.message
  unpack_signed_voluntary_exit j given_message
