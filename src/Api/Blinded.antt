-- ===== src/Api/Blinded.antt =====
-- api/versionedblindedbeaconblock.go with the types of api/v1/bellatrix and api/v1/capella: a block
-- whose payload is a header. A blinded block has the fields of a block, but for the rest of the body.
use go_eth2_client.Prelude.{
  ℕ, Text, Bytes, Slot, Root, codes, Ending, returns, Error, Result, ok, err, Bool, Option, none,
  some, List, ◌++◌,
}
use go_eth2_client.Spec.DataVersion.{DataVersion, by_version}
use go_eth2_client.Spec.Blocks.{
  BeaconBlock, BeaconBlockBody, Attestation, SyncAggregate, SignedBlsToExecutionChange,
}
use go_eth2_client.Spec.Versioned.{Methods, no_block, is_none}
use go_eth2_client.Spec.Versioned.Block.{block_field, body_field, block_root, body_root_of}

-- spec/bellatrix/executionpayloadheader.go.
pub record ExecutionPayloadHeader : Type 0 where
  pub parent_hash : Bytes
  pub fee_recipient : Bytes
  pub state_root : Bytes
  pub receipts_root : Bytes
  pub logs_bloom : Bytes
  pub prev_randao : Bytes
  pub block_number : ℕ
  pub gas_limit : ℕ
  pub gas_used : ℕ
  pub timestamp : ℕ
  pub extra_data : Bytes
  pub base_fee_per_gas : Bytes
  pub block_hash : Bytes
  pub transactions_root : Root

-- spec/capella/executionpayloadheader.go: the same fields and one more.
pub record CapellaHeader : Type 0 where
  pub common : ExecutionPayloadHeader
  pub withdrawals_root : Root

pub record BlindedBellatrixRest : Type 0 where
  pub sync_aggregate : Option SyncAggregate
  pub execution_payload_header : Option ExecutionPayloadHeader

pub record BlindedCapellaRest : Type 0 where
  pub sync_aggregate : Option SyncAggregate
  pub execution_payload_header : Option CapellaHeader
  pub bls_to_execution_changes : List (Option SignedBlsToExecutionChange)

pub record VersionedBlindedBeaconBlock : Type 0 where
  pub version : DataVersion
  pub bellatrix_data : Option (BeaconBlock BlindedBellatrixRest)
  pub capella_data : Option (BeaconBlock BlindedCapellaRest)

abbrev pub unsupported_version : Error
unsupported_version = codes "unsupported version"

-- `IsEmpty`, which looks at the pointer of Bellatrix only.
unfoldable pub is_empty : VersionedBlindedBeaconBlock → Bool
is_empty v = is_none v.bellatrix_data

-- A `switch` on the version whose branches differ by the fork alone.
abbrev pub each_blinded :
    {R : Type 0}
    → ((Rest : Type 0) → Text → Option (BeaconBlock Rest) → R)
    → R
    → VersionedBlindedBeaconBlock
    → R
each_blinded f other v =
    by_version v.version other other (f _ (codes "bellatrix") v.bellatrix_data)
      (f _ (codes "capella") v.capella_data) other

unfoldable pub slot : VersionedBlindedBeaconBlock → Result Slot
slot = each_blinded (λ Rest. block_field (λ b. b.slot)) (err unsupported_version)

unfoldable pub attestations : VersionedBlindedBeaconBlock → Result (List (Option Attestation))
attestations = each_blinded (λ Rest. body_field (λ b. b.attestations)) (err unsupported_version)

unfoldable pub parent_root : VersionedBlindedBeaconBlock → Result Root
parent_root = each_blinded (λ Rest. block_field (λ b. b.parent_root)) (err unsupported_version)

unfoldable pub state_root : VersionedBlindedBeaconBlock → Result Root
state_root = each_blinded (λ Rest. block_field (λ b. b.state_root)) (err unsupported_version)

module _ (bellatrix : Methods BlindedBellatrixRest) (capella : Methods BlindedCapellaRest) where
  unfoldable pub root : VersionedBlindedBeaconBlock → Ending Root
  root v =
      by_version v.version (returns (err unsupported_version)) (returns (err unsupported_version))
        (block_root bellatrix (codes "bellatrix") v.bellatrix_data)
        (block_root capella (codes "capella") v.capella_data) (returns (err unsupported_version))

  unfoldable pub body_root : VersionedBlindedBeaconBlock → Ending Root
  body_root v =
      by_version v.version (returns (err unsupported_version)) (returns (err unsupported_version))
        (body_root_of bellatrix (codes "bellatrix") v.bellatrix_data)
        (body_root_of capella (codes "capella") v.capella_data) (returns (err unsupported_version))

-- The header of a block, with an error for each pointer that is nil on the way.
module _ {Rest : Type 0} (header_of : Rest → Option ExecutionPayloadHeader) (name : Text) where
  abbrev some_header : Option ExecutionPayloadHeader → Result ExecutionPayloadHeader
  some_header none = err (codes "no " ++ name ++ codes " block body execution payload header")
  some_header (some h) = ok h

  abbrev header_in : Option (BeaconBlockBody Rest) → Result ExecutionPayloadHeader
  header_in none = err (codes "no " ++ name ++ codes " block body")
  header_in (some b) = some_header (header_of b.rest)

  abbrev pub header : Option (BeaconBlock Rest) → Result ExecutionPayloadHeader
  header none = err (no_block name)
  header (some b) = header_in b.body

abbrev common_of : Option CapellaHeader → Option ExecutionPayloadHeader
common_of none = none
common_of (some h) = some h.common

abbrev shown :
    {A : Type 0} → (ExecutionPayloadHeader → A) → Result ExecutionPayloadHeader → Result A
shown f (err e) = err e
shown f (ok h) = ok (f h)

-- The accessors of what the header holds.
abbrev header_field :
    {A : Type 0} → (ExecutionPayloadHeader → A) → VersionedBlindedBeaconBlock → Result A
header_field f v =
    by_version v.version (err unsupported_version) (err unsupported_version)
      (shown f (header (λ r. r.execution_payload_header) (codes "bellatrix") v.bellatrix_data))
      (shown f
        (header (λ r. common_of r.execution_payload_header) (codes "capella") v.capella_data))
      (err unsupported_version)

unfoldable pub transactions_root : VersionedBlindedBeaconBlock → Result Root
transactions_root = header_field (λ h. h.transactions_root)

unfoldable pub fee_recipient : VersionedBlindedBeaconBlock → Result Bytes
fee_recipient = header_field (λ h. h.fee_recipient)

unfoldable pub timestamp : VersionedBlindedBeaconBlock → Result ℕ
timestamp = header_field (λ h. h.timestamp)
