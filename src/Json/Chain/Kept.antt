-- ===== src/Json/Chain/Kept.antt =====
-- What is written as JSON is read back, and what is read is valid.
use go_eth2_client.Codec.Fields.{nested}
use go_eth2_client.Prelude.{Option, Gives-bind, codes, ok, ◌≡◌, Gives, arith}
use go_eth2_client.Codec.Fields.Laws.{
  IsGiven, IsFine, need-IsGiven, need-given, nested-IsFine, nested-written, IsSized, IsUint,
  Survives, read_array-Gives, read_array-format_hex, read_array_of-Gives, read_array_of-format_hex,
  read_uint-Gives, read_uint-format_uint, survives,
}
use go_eth2_client.Api.ValidatorState.{Validator}
use go_eth2_client.Http.Queries.{Finality}
use go_eth2_client.Http.Service.{DepositContract, Fork}
use go_eth2_client.Multi.Call.{SyncState}
use go_eth2_client.Json.Attestations.{marshal_checkpoint, unmarshal_checkpoint}
use go_eth2_client.Json.Attestations.Kept.{
  IsCheckpoint, unmarshal_checkpoint-Gives, checkpoint_back,
}
use go_eth2_client.Json.Headers.{
  marshal_signed_beacon_block_header, unmarshal_signed_beacon_block_header,
}
use go_eth2_client.Json.Headers.Kept.{
  IsSignedBeaconBlockHeader, unmarshal_signed_beacon_block_header-Gives,
  signed_beacon_block_header_back,
}
use go_eth2_client.Spec.Blocks.{Checkpoint, SignedBeaconBlockHeader}
use go_eth2_client.Json.Chain.{
  DepositContractJson, marshal_deposit_contract, unmarshal_deposit_contract, SyncStateJson,
  marshal_sync_state, unmarshal_sync_state, FinalityJson, marshal_finality, unmarshal_finality,
  unpack_finality, BeaconBlockHeaderJson, marshal_beacon_block_header,
  unmarshal_beacon_block_header, unpack_beacon_block_header, BeaconBlockHeader, ForkJson,
  marshal_fork, unmarshal_fork, ForkDataJson, marshal_fork_data, unmarshal_fork_data, ForkData,
  SigningDataJson, marshal_signing_data, unmarshal_signing_data, SigningData, ValidatorJson,
  marshal_validator, unmarshal_validator,
}

abbrev pub IsDepositContract : DepositContract → Type 0
IsDepositContract x = IsUint x.chain_id × IsSized 20 x.contract_address

unmarshal_deposit_contract-Gives :
    (j : DepositContractJson) → Gives IsDepositContract (unmarshal_deposit_contract j)
unfolding unmarshal_deposit_contract
unmarshal_deposit_contract-Gives j = ground (
  arith,
  read_uint-Gives (codes "chain ID") j.chain_id,
  read_array_of-Gives 20 (codes "address") j.contract_address,
)

deposit_contract_back :
    (x : DepositContract)
    → IsDepositContract x
    → unmarshal_deposit_contract (marshal_deposit_contract x) ≡ ok x
unfolding marshal_deposit_contract unmarshal_deposit_contract
deposit_contract_back x h = rw (
  read_uint-format_uint (codes "chain ID") x.chain_id h.0,
  read_array_of-format_hex 19 (codes "address") x.contract_address h.1,
)

abbrev pub IsSyncState : SyncState → Type 0
IsSyncState x = IsUint x.head_slot × IsUint x.sync_distance

unmarshal_sync_state-Gives : (j : SyncStateJson) → Gives IsSyncState (unmarshal_sync_state j)
unfolding unmarshal_sync_state
unmarshal_sync_state-Gives j = ground (
  arith,
  read_uint-Gives (codes "head slot") j.head_slot,
  read_uint-Gives (codes "sync distance") j.sync_distance,
)

sync_state_back :
    (x : SyncState) → IsSyncState x → unmarshal_sync_state (marshal_sync_state x) ≡ ok x
unfolding marshal_sync_state unmarshal_sync_state
sync_state_back x h = rw (
  read_uint-format_uint (codes "head slot") x.head_slot h.0,
  read_uint-format_uint (codes "sync distance") x.sync_distance h.1,
)

abbrev pub IsFinality : Finality → Type 0
IsFinality x =
    IsGiven IsCheckpoint x.finalized
    × IsGiven IsCheckpoint x.justified
    × IsGiven IsCheckpoint x.previous_justified

unpack_finality-Gives :
    (j : FinalityJson) (given_finalized : Option Checkpoint) (given_justified : Option Checkpoint)
    (given_previous_justified : Option Checkpoint)
    → IsFine IsCheckpoint given_finalized
    → IsFine IsCheckpoint given_justified
    → IsFine IsCheckpoint given_previous_justified
    → Gives IsFinality (unpack_finality j given_finalized given_justified given_previous_justified)
unfolding unpack_finality
unpack_finality-Gives j given_finalized given_justified given_previous_justified h_finalized
      h_justified h_previous_justified =
    ground (
      arith,
      need-IsGiven IsCheckpoint (codes "finalized checkpoint missing") given_finalized h_finalized,
      need-IsGiven IsCheckpoint (codes "justified checkpoint missing") given_justified h_justified,
      need-IsGiven IsCheckpoint (codes "previous justified checkpoint missing")
          given_previous_justified h_previous_justified,
    )

unmarshal_finality-Gives : (j : FinalityJson) → Gives IsFinality (unmarshal_finality j)
unfolding unmarshal_finality
unmarshal_finality-Gives j =
    Gives-bind IsFinality (IsFine IsCheckpoint) (nested unmarshal_checkpoint j.finalized) _
      (nested-IsFine IsCheckpoint unmarshal_checkpoint unmarshal_checkpoint-Gives j.finalized)
      (λ given_finalized h_finalized.
        Gives-bind IsFinality (IsFine IsCheckpoint) (nested unmarshal_checkpoint j.justified) _
          (nested-IsFine IsCheckpoint unmarshal_checkpoint unmarshal_checkpoint-Gives j.justified)
          (λ given_justified h_justified.
            Gives-bind IsFinality (IsFine IsCheckpoint)
              (nested unmarshal_checkpoint j.previous_justified) _
              (nested-IsFine IsCheckpoint unmarshal_checkpoint unmarshal_checkpoint-Gives
                j.previous_justified)
              (λ given_previous_justified h_previous_justified.
                unpack_finality-Gives j given_finalized given_justified given_previous_justified
                  h_finalized h_justified h_previous_justified)))

finality_back : (x : Finality) → IsFinality x → unmarshal_finality (marshal_finality x) ≡ ok x
unfolding marshal_finality unmarshal_finality unpack_finality
finality_back x h = rw (
  nested-written IsCheckpoint marshal_checkpoint unmarshal_checkpoint checkpoint_back x.finalized
      h.0,
  nested-written IsCheckpoint marshal_checkpoint unmarshal_checkpoint checkpoint_back x.justified
      h.1,
  nested-written IsCheckpoint marshal_checkpoint unmarshal_checkpoint checkpoint_back
      x.previous_justified h.2,
  need-given IsCheckpoint (codes "finalized checkpoint missing") x.finalized h.0,
  need-given IsCheckpoint (codes "justified checkpoint missing") x.justified h.1,
  need-given IsCheckpoint (codes "previous justified checkpoint missing") x.previous_justified h.2,
)

abbrev pub IsBeaconBlockHeader : BeaconBlockHeader → Type 0
IsBeaconBlockHeader x = IsSized 32 x.root × IsGiven IsSignedBeaconBlockHeader x.header

unpack_beacon_block_header-Gives :
    (j : BeaconBlockHeaderJson) (given_header : Option SignedBeaconBlockHeader)
    → IsFine IsSignedBeaconBlockHeader given_header
    → Gives IsBeaconBlockHeader (unpack_beacon_block_header j given_header)
unfolding unpack_beacon_block_header
unpack_beacon_block_header-Gives j given_header h_header = ground (
  arith,
  read_array_of-Gives 32 (codes "root") j.root,
  need-IsGiven IsSignedBeaconBlockHeader (codes "header missing") given_header h_header,
)

unmarshal_beacon_block_header-Gives :
    (j : BeaconBlockHeaderJson) → Gives IsBeaconBlockHeader (unmarshal_beacon_block_header j)
unfolding unmarshal_beacon_block_header
unmarshal_beacon_block_header-Gives j =
    Gives-bind IsBeaconBlockHeader (IsFine IsSignedBeaconBlockHeader)
      (nested unmarshal_signed_beacon_block_header j.header) _
      (nested-IsFine IsSignedBeaconBlockHeader unmarshal_signed_beacon_block_header
        unmarshal_signed_beacon_block_header-Gives j.header)
      (λ given_header h_header. unpack_beacon_block_header-Gives j given_header h_header)

beacon_block_header_back :
    (x : BeaconBlockHeader)
    → IsBeaconBlockHeader x
    → unmarshal_beacon_block_header (marshal_beacon_block_header x) ≡ ok x
unfolding marshal_beacon_block_header unmarshal_beacon_block_header unpack_beacon_block_header
beacon_block_header_back x h = rw (
  nested-written IsSignedBeaconBlockHeader marshal_signed_beacon_block_header
      unmarshal_signed_beacon_block_header signed_beacon_block_header_back x.header h.1,
  read_array_of-format_hex 31 (codes "root") x.root h.0,
  need-given IsSignedBeaconBlockHeader (codes "header missing") x.header h.1,
)

abbrev pub IsFork : Fork → Type 0
IsFork x = IsSized 4 x.previous_version × IsSized 4 x.current_version × IsUint x.epoch

unmarshal_fork-Gives : (j : ForkJson) → Gives IsFork (unmarshal_fork j)
unfolding unmarshal_fork
unmarshal_fork-Gives j = ground (
  arith,
  read_array-Gives 4 (codes "previous version") j.previous_version,
  read_array-Gives 4 (codes "current version") j.current_version,
  read_uint-Gives (codes "epoch") j.epoch,
)

fork_back : (x : Fork) → IsFork x → unmarshal_fork (marshal_fork x) ≡ ok x
unfolding marshal_fork unmarshal_fork
fork_back x h = rw (
  read_array-format_hex 3 (codes "previous version") x.previous_version h.0,
  read_array-format_hex 3 (codes "current version") x.current_version h.1,
  read_uint-format_uint (codes "epoch") x.epoch h.2,
)

abbrev pub IsForkData : ForkData → Type 0
IsForkData x = IsSized 4 x.current_version × IsSized 32 x.genesis_validators_root

unmarshal_fork_data-Gives : (j : ForkDataJson) → Gives IsForkData (unmarshal_fork_data j)
unfolding unmarshal_fork_data
unmarshal_fork_data-Gives j = ground (
  arith,
  read_array-Gives 4 (codes "current version") j.current_version,
  read_array-Gives 32 (codes "genesis validators root") j.genesis_validators_root,
)

fork_data_back : (x : ForkData) → IsForkData x → unmarshal_fork_data (marshal_fork_data x) ≡ ok x
unfolding marshal_fork_data unmarshal_fork_data
fork_data_back x h = rw (
  read_array-format_hex 3 (codes "current version") x.current_version h.0,
  read_array-format_hex 31 (codes "genesis validators root") x.genesis_validators_root h.1,
)

abbrev pub IsSigningData : SigningData → Type 0
IsSigningData x = IsSized 32 x.object_root × IsSized 32 x.domain

unmarshal_signing_data-Gives :
    (j : SigningDataJson) → Gives IsSigningData (unmarshal_signing_data j)
unfolding unmarshal_signing_data
unmarshal_signing_data-Gives j = ground (
  arith,
  read_array-Gives 32 (codes "object root") j.object_root,
  read_array-Gives 32 (codes "domain") j.domain,
)

signing_data_back :
    (x : SigningData) → IsSigningData x → unmarshal_signing_data (marshal_signing_data x) ≡ ok x
unfolding marshal_signing_data unmarshal_signing_data
signing_data_back x h = rw (
  read_array-format_hex 31 (codes "object root") x.object_root h.0,
  read_array-format_hex 31 (codes "domain") x.domain h.1,
)

abbrev pub IsValidator : Validator → Type 0
IsValidator x =
    IsSized 48 x.public_key
    × IsSized 32 x.withdrawal_credentials
    × IsUint x.effective_balance
    × IsUint x.activation_eligibility_epoch
    × IsUint x.activation_epoch
    × IsUint x.exit_epoch
    × IsUint x.withdrawable_epoch

unmarshal_validator-Gives : (j : ValidatorJson) → Gives IsValidator (unmarshal_validator j)
unfolding unmarshal_validator
unmarshal_validator-Gives j = ground (
  arith,
  read_array_of-Gives 48 (codes "public key") j.public_key,
  read_array_of-Gives 32 (codes "withdrawal credentials") j.withdrawal_credentials,
  read_uint-Gives (codes "effective balance") j.effective_balance,
  read_uint-Gives (codes "activation eligibility epoch") j.activation_eligibility_epoch,
  read_uint-Gives (codes "activation epoch") j.activation_epoch,
  read_uint-Gives (codes "exit epoch") j.exit_epoch,
  read_uint-Gives (codes "withdrawable epoch") j.withdrawable_epoch,
)

validator_back : (x : Validator) → IsValidator x → unmarshal_validator (marshal_validator x) ≡ ok x
unfolding marshal_validator unmarshal_validator
validator_back x h = rw (
  read_array_of-format_hex 47 (codes "public key") x.public_key h.0,
  read_array_of-format_hex 31 (codes "withdrawal credentials") x.withdrawal_credentials h.1,
  read_uint-format_uint (codes "effective balance") x.effective_balance h.2,
  read_uint-format_uint (codes "activation eligibility epoch") x.activation_eligibility_epoch h.3,
  read_uint-format_uint (codes "activation epoch") x.activation_epoch h.4,
  read_uint-format_uint (codes "exit epoch") x.exit_epoch h.5,
  read_uint-format_uint (codes "withdrawable epoch") x.withdrawable_epoch h.6,
)

-- A value of a deposit contract, a sync state, finality checkpoints, a block header of the API, a
-- fork, fork data, signing data or a validator, with the values within it, is valid exactly if it
-- is read back from what it is written as in JSON. It is valid exactly if it is read from
-- something.
pub chain_survive :
    (x0 : DepositContract) (x1 : SyncState) (x2 : Finality) (x3 : BeaconBlockHeader) (x4 : Fork)
    (x5 : ForkData) (x6 : SigningData) (x7 : Validator)
    → Survives marshal_deposit_contract unmarshal_deposit_contract IsDepositContract x0
      × Survives marshal_sync_state unmarshal_sync_state IsSyncState x1
      × Survives marshal_finality unmarshal_finality IsFinality x2
      × Survives marshal_beacon_block_header unmarshal_beacon_block_header IsBeaconBlockHeader x3
      × Survives marshal_fork unmarshal_fork IsFork x4
      × Survives marshal_fork_data unmarshal_fork_data IsForkData x5
      × Survives marshal_signing_data unmarshal_signing_data IsSigningData x6
      × Survives marshal_validator unmarshal_validator IsValidator x7
chain_survive x0 x1 x2 x3 x4 x5 x6 x7 = (
  survives marshal_deposit_contract unmarshal_deposit_contract IsDepositContract
      unmarshal_deposit_contract-Gives deposit_contract_back x0,
  survives marshal_sync_state unmarshal_sync_state IsSyncState unmarshal_sync_state-Gives
      sync_state_back x1,
  survives marshal_finality unmarshal_finality IsFinality unmarshal_finality-Gives finality_back x2,
  survives marshal_beacon_block_header unmarshal_beacon_block_header IsBeaconBlockHeader
      unmarshal_beacon_block_header-Gives beacon_block_header_back x3,
  survives marshal_fork unmarshal_fork IsFork unmarshal_fork-Gives fork_back x4,
  survives marshal_fork_data unmarshal_fork_data IsForkData unmarshal_fork_data-Gives fork_data_back
      x5,
  survives marshal_signing_data unmarshal_signing_data IsSigningData unmarshal_signing_data-Gives
      signing_data_back x6,
  survives marshal_validator unmarshal_validator IsValidator unmarshal_validator-Gives
      validator_back x7,
)
