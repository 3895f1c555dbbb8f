-- ===== src/Multi/Providers/Blocks.antt =====
-- multi/*.go: the methods that fetch blocks and attestations.
use go_eth2_client.Prelude.{
  ℕ, Text, Option, none, List, [], Slot, CommitteeIndex, Root, Bytes, BlsSignature,
}
use go_eth2_client.Multi.Pool.{Service}
use go_eth2_client.Multi.Call.{Network}
use go_eth2_client.Multi.Providers.{Method, Answer, fetch}

module _ (net : Network) where
  open net use {World}

  abbrev pub aggregate_attestation :
      {Attestation : Type 0}
      → (Slot → Root → Method net (Option Attestation))
      → Slot
      → Root
      → Service
      → World
      → Answer net (Option Attestation)
  aggregate_attestation provider slot root = fetch net none (provider slot root)

  abbrev pub attestation_data :
      {AttestationData : Type 0}
      → (Slot → CommitteeIndex → Method net (Option AttestationData))
      → Slot
      → CommitteeIndex
      → Service
      → World
      → Answer net (Option AttestationData)
  attestation_data provider slot committee_index = fetch net none (provider slot committee_index)

  abbrev pub attestation_pool :
      {Attestation : Type 0}
      → (Slot → Method net (List Attestation))
      → Slot
      → Service
      → World
      → Answer net (List Attestation)
  attestation_pool provider slot = fetch net [] (provider slot)

  abbrev pub beacon_block_header :
      {Header : Type 0}
      → (Text → Method net (Option Header))
      → Text
      → Service
      → World
      → Answer net (Option Header)
  beacon_block_header provider block_id = fetch net none (provider block_id)

  abbrev pub beacon_block_proposal :
      {Block : Type 0}
      → (Slot → BlsSignature → Bytes → Method net (Option Block))
      → Slot
      → BlsSignature
      → Bytes
      → Service
      → World
      → Answer net (Option Block)
  beacon_block_proposal provider slot randao_reveal graffiti =
      fetch net none (provider slot randao_reveal graffiti)

  abbrev pub blinded_beacon_block_proposal :
      {Block : Type 0}
      → (Slot → BlsSignature → Bytes → Method net (Option Block))
      → Slot
      → BlsSignature
      → Bytes
      → Service
      → World
      → Answer net (Option Block)
  blinded_beacon_block_proposal provider slot randao_reveal graffiti =
      fetch net none (provider slot randao_reveal graffiti)

  abbrev pub beacon_block_root :
      (Text → Method net (Option Root)) → Text → Service → World → Answer net (Option Root)
  beacon_block_root provider block_id = fetch net none (provider block_id)

  abbrev pub signed_beacon_block :
      {Block : Type 0}
      → (Text → Method net (Option Block))
      → Text
      → Service
      → World
      → Answer net (Option Block)
  signed_beacon_block provider block_id = fetch net none (provider block_id)

  abbrev pub sync_committee_contribution :
      {Contribution : Type 0}
      → (Slot → ℕ → Root → Method net (Option Contribution))
      → Slot
      → ℕ
      → Root
      → Service
      → World
      → Answer net (Option Contribution)
  sync_committee_contribution provider slot subcommittee_index root =
      fetch net none (provider slot subcommittee_index root)
