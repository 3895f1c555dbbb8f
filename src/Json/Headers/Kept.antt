-- ===== src/Json/Headers/Kept.antt =====
-- What is written as JSON is read back, and what is read is valid.
use go_eth2_client.Codec.Fields.{nested}
use go_eth2_client.Prelude.{Option, Gives-bind, codes, ok, ◌≡◌, Gives, arith}
use go_eth2_client.Codec.Fields.Laws.{
  IsGiven, IsFine, need-IsGiven, need-given, nested-IsFine, nested-written, IsSized, IsUint,
  decode_array-Gives, decode_array-format_hex, read_array-Gives, read_array-format_hex,
  read_uint-Gives, read_uint-format_uint,
}
use go_eth2_client.Spec.Blocks.{
  BeaconBlockHeader, ProposerSlashing, SignedBeaconBlockHeader, SignedVoluntaryExit, VoluntaryExit,
}
use go_eth2_client.Json.Headers.{
  BeaconBlockHeaderJson, marshal_beacon_block_header, unmarshal_beacon_block_header,
  SignedBeaconBlockHeaderJson, marshal_signed_beacon_block_header,
  unmarshal_signed_beacon_block_header, unpack_signed_beacon_block_header, ProposerSlashingJson,
  marshal_proposer_slashing, unmarshal_proposer_slashing, unpack_proposer_slashing,
  VoluntaryExitJson, marshal_voluntary_exit, unmarshal_voluntary_exit, SignedVoluntaryExitJson,
  marshal_signed_voluntary_exit, unmarshal_signed_voluntary_exit, unpack_signed_voluntary_exit,
}

abbrev pub IsBeaconBlockHeader : BeaconBlockHeader → Type 0
IsBeaconBlockHeader x =
    IsUint x.slot
    × IsUint x.proposer_index
    × IsSized 32 x.parent_root
    × IsSized 32 x.state_root
    × IsSized 32 x.body_root

pub unmarshal_beacon_block_header-Gives :
    (j : BeaconBlockHeaderJson) → Gives IsBeaconBlockHeader (unmarshal_beacon_block_header j)
unfolding unmarshal_beacon_block_header
unmarshal_beacon_block_header-Gives j = ground (
  arith,
  read_uint-Gives (codes "slot") j.slot,
  read_uint-Gives (codes "proposer index") j.proposer_index,
  read_array-Gives 32 (codes "parent root") j.parent_root,
  read_array-Gives 32 (codes "state root") j.state_root,
  read_array-Gives 32 (codes "body root") j.body_root,
)

pub beacon_block_header_back :
    (x : BeaconBlockHeader)
    → IsBeaconBlockHeader x
    → unmarshal_beacon_block_header (marshal_beacon_block_header x) ≡ ok x
unfolding marshal_beacon_block_header unmarshal_beacon_block_header
beacon_block_header_back x h = rw (
  read_uint-format_uint (codes "slot") x.slot h.0,
  read_uint-format_uint (codes "proposer index") x.proposer_index h.1,
  read_array-format_hex 31 (codes "parent root") x.parent_root h.2,
  read_array-format_hex 31 (codes "state root") x.state_root h.3,
  read_array-format_hex 31 (codes "body root") x.body_root h.4,
)

abbrev pub IsSignedBeaconBlockHeader : SignedBeaconBlockHeader → Type 0
IsSignedBeaconBlockHeader x = IsGiven IsBeaconBlockHeader x.message × IsSized 96 x.signature

unpack_signed_beacon_block_header-Gives :
    (j : SignedBeaconBlockHeaderJson) (given_message : Option BeaconBlockHeader)
    → IsFine IsBeaconBlockHeader given_message
    → Gives IsSignedBeaconBlockHeader (unpack_signed_beacon_block_header j given_message)
unfolding unpack_signed_beacon_block_header
unpack_signed_beacon_block_header-Gives j given_message h_message = ground (
  arith,
  need-IsGiven IsBeaconBlockHeader (codes "message missing") given_message h_message,
  decode_array-Gives 96 (codes "signature") j.signature,
)

pub unmarshal_signed_beacon_block_header-Gives :
    (j : SignedBeaconBlockHeaderJson)
    → Gives IsSignedBeaconBlockHeader (unmarshal_signed_beacon_block_header j)
unfolding unmarshal_signed_beacon_block_header
unmarshal_signed_beacon_block_header-Gives j =
    Gives-bind IsSignedBeaconBlockHeader (IsFine IsBeaconBlockHeader)
      (nested unmarshal_beacon_block_header j.message) _
      (nested-IsFine IsBeaconBlockHeader unmarshal_beacon_block_header
        unmarshal_beacon_block_header-Gives j.message)
      (λ given_message h_message. unpack_signed_beacon_block_header-Gives j given_message h_message)

pub signed_beacon_block_header_back :
    (x : SignedBeaconBlockHeader)
    → IsSignedBeaconBlockHeader x
    → unmarshal_signed_beacon_block_header (marshal_signed_beacon_block_header x) ≡ ok x
unfolding marshal_signed_beacon_block_header unmarshal_signed_beacon_block_header
    unpack_signed_beacon_block_header
signed_beacon_block_header_back x h = rw (
  nested-written IsBeaconBlockHeader marshal_beacon_block_header unmarshal_beacon_block_header
      beacon_block_header_back x.message h.0,
  need-given IsBeaconBlockHeader (codes "message missing") x.message h.0,
  decode_array-format_hex 95 (codes "signature") x.signature h.1,
)

abbrev pub IsProposerSlashing : ProposerSlashing → Type 0
IsProposerSlashing x =
    IsGiven IsSignedBeaconBlockHeader x.signed_header1
    × IsGiven IsSignedBeaconBlockHeader x.signed_header2

unpack_proposer_slashing-Gives :
    (j : ProposerSlashingJson) (given_signed_header1 : Option SignedBeaconBlockHeader)
    (given_signed_header2 : Option SignedBeaconBlockHeader)
    → IsFine IsSignedBeaconBlockHeader given_signed_header1
    → IsFine IsSignedBeaconBlockHeader given_signed_header2
    → Gives IsProposerSlashing
        (unpack_proposer_slashing j given_signed_header1 given_signed_header2)
unfolding unpack_proposer_slashing
unpack_proposer_slashing-Gives j given_signed_header1 given_signed_header2 h_signed_header1
      h_signed_header2 =
    ground (
      arith,
      need-IsGiven IsSignedBeaconBlockHeader (codes "signed header 1 missing") given_signed_header1
          h_signed_header1,
      need-IsGiven IsSignedBeaconBlockHeader (codes "signed header 2 missing") given_signed_header2
          h_signed_header2,
    )

pub unmarshal_proposer_slashing-Gives :
    (j : ProposerSlashingJson) → Gives IsProposerSlashing (unmarshal_proposer_slashing j)
unfolding unmarshal_proposer_slashing
unmarshal_proposer_slashing-Gives j =
    Gives-bind IsProposerSlashing (IsFine IsSignedBeaconBlockHeader)
      (nested unmarshal_signed_beacon_block_header j.signed_header1) _
      (nested-IsFine IsSignedBeaconBlockHeader unmarshal_signed_beacon_block_header
        unmarshal_signed_beacon_block_header-Gives j.signed_header1)
      (λ given_signed_header1 h_signed_header1.
        Gives-bind IsProposerSlashing (IsFine IsSignedBeaconBlockHeader)
          (nested unmarshal_signed_beacon_block_header j.signed_header2) _
          (nested-IsFine IsSignedBeaconBlockHeader unmarshal_signed_beacon_block_header
            unmarshal_signed_beacon_block_header-Gives j.signed_header2)
          (λ given_signed_header2 h_signed_header2.
            unpack_proposer_slashing-Gives j given_signed_header1 given_signed_header2
              h_signed_header1 h_signed_header2))

pub proposer_slashing_back :
    (x : ProposerSlashing)
    → IsProposerSlashing x
    → unmarshal_proposer_slashing (marshal_proposer_slashing x) ≡ ok x
unfolding marshal_proposer_slashing unmarshal_proposer_slashing unpack_proposer_slashing
proposer_slashing_back x h = rw (
  nested-written IsSignedBeaconBlockHeader marshal_signed_beacon_block_header
      unmarshal_signed_beacon_block_header signed_beacon_block_header_back x.signed_header1 h.0,
  nested-written IsSignedBeaconBlockHeader marshal_signed_beacon_block_header
      unmarshal_signed_beacon_block_header signed_beacon_block_header_back x.signed_header2 h.1,
  need-given IsSignedBeaconBlockHeader (codes "signed header 1 missing") x.signed_header1 h.0,
  need-given IsSignedBeaconBlockHeader (codes "signed header 2 missing") x.signed_header2 h.1,
)

abbrev pub IsVoluntaryExit : VoluntaryExit → Type 0
IsVoluntaryExit x = IsUint x.epoch × IsUint x.validator_index

pub unmarshal_voluntary_exit-Gives :
    (j : VoluntaryExitJson) → Gives IsVoluntaryExit (unmarshal_voluntary_exit j)
unfolding unmarshal_voluntary_exit
unmarshal_voluntary_exit-Gives j = ground (
  arith,
  read_uint-Gives (codes "epoch") j.epoch,
  read_uint-Gives (codes "validator index") j.validator_index,
)

pub voluntary_exit_back :
    (x : VoluntaryExit)
    → IsVoluntaryExit x
    → unmarshal_voluntary_exit (marshal_voluntary_exit x) ≡ ok x
unfolding marshal_voluntary_exit unmarshal_voluntary_exit
voluntary_exit_back x h = rw (
  read_uint-format_uint (codes "epoch") x.epoch h.0,
  read_uint-format_uint (codes "validator index") x.validator_index h.1,
)

abbrev pub IsSignedVoluntaryExit : SignedVoluntaryExit → Type 0
IsSignedVoluntaryExit x = IsGiven IsVoluntaryExit x.message × IsSized 96 x.signature

unpack_signed_voluntary_exit-Gives :
    (j : SignedVoluntaryExitJson) (given_message : Option VoluntaryExit)
    → IsFine IsVoluntaryExit given_message
    → Gives IsSignedVoluntaryExit (unpack_signed_voluntary_exit j given_message)
unfolding unpack_signed_voluntary_exit
unpack_signed_voluntary_exit-Gives j given_message h_message = ground (
  arith,
  need-IsGiven IsVoluntaryExit (codes "message missing") given_message h_message,
  decode_array-Gives 96 (codes "signature") j.signature,
)

pub unmarshal_signed_voluntary_exit-Gives :
    (j : SignedVoluntaryExitJson) → Gives IsSignedVoluntaryExit (unmarshal_signed_voluntary_exit j)
unfolding unmarshal_signed_voluntary_exit
unmarshal_signed_voluntary_exit-Gives j =
    Gives-bind IsSignedVoluntaryExit (IsFine IsVoluntaryExit)
      (nested unmarshal_voluntary_exit j.message) _
      (nested-IsFine IsVoluntaryExit unmarshal_voluntary_exit unmarshal_voluntary_exit-Gives
        j.message)
      (λ given_message h_message. unpack_signed_voluntary_exit-Gives j given_message h_message)

pub signed_voluntary_exit_back :
    (x : SignedVoluntaryExit)
    → IsSignedVoluntaryExit x
    → unmarshal_signed_voluntary_exit (marshal_signed_voluntary_exit x) ≡ ok x
unfolding marshal_signed_voluntary_exit unmarshal_signed_voluntary_exit unpack_signed_voluntary_exit
signed_voluntary_exit_back x h = rw (
  nested-written IsVoluntaryExit marshal_voluntary_exit unmarshal_voluntary_exit voluntary_exit_back
      x.message h.0,
  need-given IsVoluntaryExit (codes "message missing") x.message h.0,
  decode_array-format_hex 95 (codes "signature") x.signature h.1,
)
