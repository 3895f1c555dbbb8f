-- ===== src/Http/Queries.antt =====
-- The requests of http/ that check what they are told: finality.go, fork.go, attestationdata.go,
-- attestationpool.go, aggregateattestation.go, beaconblockroot.go and beaconstateroot.go. A decoder is
-- that of the field `data`, which is none if it is absent or null.
pub mod Checked
use go_eth2_client.Prelude.{
  ℕ, Text, Bytes, Slot, Root, CommitteeIndex, codes, Error, Result, ok, err, Ending, returns,
  panics, Bool, true, false, not, ◌==◌, Option, none, some, List, [], ◌∷◌, ◌++◌, if◌then◌else◌,
  text_eq,
}
use go_eth2_client.Codec.Decimal.{format_uint}
use go_eth2_client.Codec.Hex.{format_hex, decode_0x}
use go_eth2_client.Spec.Blocks.{Checkpoint, Attestation, AttestationData}
use go_eth2_client.Http.Service.{
  Service, Server, Fork, M, pure, fail, crash, lift, or_wrap, after, ◌>>=◌,
}
use go_eth2_client.Http.Get.{get}
use go_eth2_client.Http.Static.{request}
use go_eth2_client.Http.Spec.{copied}

-- api/v1/finality.go.
pub record Finality : Type 0 where
  pub finalized : Option Checkpoint
  pub justified : Option Checkpoint
  pub previous_justified : Option Checkpoint

-- The data of an entry of the pool, where both pointers lead somewhere.
abbrev pub entry_data : Option Attestation → Option AttestationData
entry_data none = none
entry_data (some a) = a.attestation_data

module _ (server : Server) where
  open server use {World}

  -- The data, which must be there.
  abbrev pub need_data : {A : Type 0} → Text → Option A → M World A
  need_data nothing none = fail nothing
  need_data nothing (some a) = pure a

  abbrev pub parsed : {A : Type 0} → Text → (Bytes → Result A) → Bytes → M World A
  parsed unparsed decode body = or_wrap unparsed (lift (decode body))

  abbrev state_url : Text → Text → Text
  state_url state_id last = codes "/eth/v1/beacon/states/" ++ state_id ++ last

  unfoldable pub finality : (Bytes → Result (Option Finality)) → Text → M World Finality
  finality decode [] = fail (codes "no state ID specified")
  finality decode (c ∷ state_id) =
      request server (state_url (c ∷ state_id) (codes "/finality_checkpoints"))
        (codes "failed to request finality checkpoints")
        (codes "failed to obtain finality checkpoints")
      >>= parsed (codes "failed to parse finality") decode
      >>= need_data (codes "no finality returned")

  unfoldable pub fork : (Bytes → Result (Option Fork)) → Text → M World Fork
  fork decode [] = fail (codes "no state ID specified")
  fork decode (c ∷ state_id) =
      request server (state_url (c ∷ state_id) (codes "/fork")) (codes "failed to request fork")
        (codes "failed to obtain fork")
      >>= parsed (codes "failed to parse fork") decode
      >>= need_data (codes "no fork returned")

  module _ (slot : Slot) where
    abbrev pub check_data : CommitteeIndex → Option AttestationData → M World AttestationData
    check_data committee_index none = fail (codes "attestation not returned")
    check_data committee_index (some d) =
        if not (d.slot == slot)
        then fail (codes "attestation data not for requested slot")
        else if not (d.index == committee_index)
        then fail (codes "attestation data not for requested committee index")
        else pure d

    abbrev pub fetch_data :
        (Bytes → Result (Option AttestationData))
        → CommitteeIndex
        → M World (Option AttestationData)
    fetch_data decode committee_index =
        request server
          (codes "/eth/v1/validator/attestation_data?slot="
            ++ format_uint slot
            ++ codes "&committee_index="
            ++ format_uint committee_index)
          (codes "failed to request attestation data") (codes "failed to obtain attestation data")
        >>= parsed (codes "failed to parse attestation data") decode

    unfoldable pub attestation_data :
        (Bytes → Result (Option AttestationData)) → CommitteeIndex → M World AttestationData
    attestation_data decode committee_index =
        fetch_data decode committee_index >>= check_data committee_index

    -- The loop over the pool, with what follows it. A nil entry, or its nil data, is followed.
    abbrev pub check_entry :
        Option AttestationData
        → M World (List (Option Attestation))
        → M World (List (Option Attestation))
    check_entry none next = crash
    check_entry (some d) next =
        if not (d.slot == slot)
        then fail (codes "attestation pool entry not for requested slot")
        else next

    abbrev pub check_entries :
        List (Option Attestation) → List (Option Attestation) → M World (List (Option Attestation))
    check_entries pool [] = pure pool
    check_entries pool (a ∷ as') = check_entry (entry_data a) (check_entries pool as')

    abbrev pub check_pool : Option (List (Option Attestation)) → M World (List (Option Attestation))
    check_pool none = fail (codes "attestation pool not returned")
    check_pool (some pool) = check_entries pool pool

    abbrev pub fetch_pool :
        (Bytes → Result (Option (List (Option Attestation))))
        → M World (Option (List (Option Attestation)))
    fetch_pool decode =
        request server (codes "/eth/v1/beacon/pool/attestations?slot=" ++ format_uint slot)
          (codes "failed to request attestation pool") (codes "failed to obtain attestation pool")
        >>= parsed (codes "failed to parse attestation pool") decode

    unfoldable pub attestation_pool :
        (Bytes → Result (Option (List (Option Attestation)))) → M World (List (Option Attestation))
    attestation_pool decode = fetch_pool decode >>= check_pool

    module _ (hash_data : AttestationData → Result Root) (data_root : Root) where
      abbrev pub check_root : Attestation → Root → M World (Option Attestation)
      check_root a r =
          if not (text_eq r data_root)
          then fail (codes "aggregate attestation not for requested data root")
          else pure (some a)

      abbrev pub check_aggregate_data :
          Attestation → Option AttestationData → M World (Option Attestation)
      check_aggregate_data a none = crash
      check_aggregate_data a (some d) =
          if not (d.slot == slot)
          then fail (codes "aggregate attestation not for requested slot")
          else (or_wrap (codes "failed to obtain hash tree root of aggregate attestation data")
                (lift (hash_data d))
              >>= check_root a)

      abbrev pub check_aggregate : Option Attestation → M World (Option Attestation)
      check_aggregate none = pure none
      check_aggregate (some a) = check_aggregate_data a a.attestation_data

      abbrev pub parsed_aggregate :
          (Bytes → Result (Option Attestation)) → Option Bytes → M World (Option Attestation)
      parsed_aggregate decode none = pure none
      parsed_aggregate decode (some body) =
          parsed (codes "failed to parse aggregate attestation") decode body

      -- A nil pointer, with no error, where the node has no aggregate.
      unfoldable pub aggregate_attestation :
          (Bytes → Result (Option Attestation)) → M World (Option Attestation)
      aggregate_attestation decode =
          or_wrap (codes "failed to request aggregate attestation") (
            get server (
              codes "/eth/v1/validator/aggregate_attestation?slot="
              ++ format_uint slot
              ++ codes "&attestation_data_root="
              ++ format_hex data_root))
          >>= parsed_aggregate decode
          >>= check_aggregate

  abbrev root_of : Text → Text → M World (Option Root)
  root_of message text =
      or_wrap message (lift (decode_0x text)) >>= λ bs. pure (some (copied 32 bs))

  abbrev block_root_text : Option Text → M World (Option Root)
  block_root_text none = fail (codes "no data returned")
  block_root_text (some []) = fail (codes "no root returned")
  block_root_text (some (c ∷ text)) = root_of (codes "invalid root returned") (c ∷ text)

  -- The decoder gives the text of the field `root` of the data.
  abbrev parsed_block_root : (Bytes → Result (Option Text)) → Option Bytes → M World (Option Root)
  parsed_block_root decode none = pure none
  parsed_block_root decode (some body) =
      parsed (codes "failed to parse beacon block root") decode body >>= block_root_text

  unfoldable pub beacon_block_root : (Bytes → Result (Option Text)) → Text → M World (Option Root)
  beacon_block_root decode block_id =
      or_wrap (codes "failed to request beacon block root")
        (get server (codes "/eth/v1/beacon/blocks/" ++ block_id ++ codes "/root"))
      >>= parsed_block_root decode

  abbrev state_root_text : Option Text → M World (Option Root)
  state_root_text none = crash
  state_root_text (some text) = root_of (codes "failed to parse state root value") text

  abbrev parsed_state_root : (Bytes → Result (Option Text)) → Option Bytes → M World (Option Root)
  parsed_state_root decode none = pure none
  parsed_state_root decode (some body) =
      parsed (codes "failed to parse state root") decode body >>= state_root_text

  unfoldable pub beacon_state_root : (Bytes → Result (Option Text)) → Text → M World (Option Root)
  beacon_state_root decode [] = fail (codes "no state ID specified")
  beacon_state_root decode (c ∷ state_id) =
      or_wrap (codes "failed to request state root")
        (get server (state_url (c ∷ state_id) (codes "/root")))
      >>= parsed_state_root decode
