-- ===== src/Http/Plain.antt =====
-- The requests of http/ that return what they are told: beaconcommittees.go, synccommittee.go,
-- synccommitteecontribution.go, nodesyncing.go, beaconblockheader.go, beaconstate.go,
-- beaconstaterandao.go, slotduration.go, genesistime.go and farfutureepoch.go. A decoder is that of
-- the field `data`, which is none if it is absent or null.
use go_eth2_client.Prelude.{
  ℕ, ◌-◌, ℤ, Text, Bytes, Slot, Epoch, Root, codes, Result, Option, none, some, List, [], ◌∷◌, ◌++◌,
  u64_mod,
}
use go_eth2_client.Codec.Decimal.{format_uint}
use go_eth2_client.Codec.Hex.{format_hex, decode_0x}
use go_eth2_client.Http.Service.{
  Server, Genesis, SpecValue, duration, M, pure, fail, crash, lift, or_wrap, ◌>>=◌,
}
use go_eth2_client.Http.Get.{get}
use go_eth2_client.Http.Static.{Decoders, request, genesis}
use go_eth2_client.Http.Spec.{copied, find_value, spec}
use go_eth2_client.Http.Queries.{parsed}

-- `FarFutureEpoch`.
abbrev pub far_future_epoch : Epoch
far_future_epoch = u64_mod - 1

module _ (server : Server) where
  open server use {World}

  -- A request whose answer must be there and parse; `what` stands in each error.
  abbrev pub obtained : {A : Type 0} → Text → (Bytes → Result A) → Text → M World A
  obtained what decode url =
      request server url (codes "failed to request " ++ what) (codes "failed to obtain " ++ what)
      >>= parsed server (codes "failed to parse " ++ what) decode

  module _ {A : Type 0} (decode : Bytes → Result A) where
    unfoldable pub beacon_committees : Text → M World A
    beacon_committees state_id =
        obtained (codes "beacon committees") decode
          (codes "/eth/v1/beacon/states/" ++ state_id ++ codes "/committees")

    unfoldable pub beacon_committees_at_epoch : Text → Epoch → M World A
    beacon_committees_at_epoch state_id epoch = obtained (codes "beacon committees") decode (
        codes "/eth/v1/beacon/states/"
        ++ state_id
        ++ codes "/committees?epoch="
        ++ format_uint epoch)

    unfoldable pub sync_committee : Text → M World A
    sync_committee state_id =
        obtained (codes "sync committee") decode
          (codes "/eth/v1/beacon/states/" ++ state_id ++ codes "/sync_committees")

    unfoldable pub sync_committee_at_epoch : Text → Epoch → M World A
    sync_committee_at_epoch state_id epoch = obtained (codes "sync committee") decode (
        codes "/eth/v1/beacon/states/"
        ++ state_id
        ++ codes "/sync_committees?epoch="
        ++ format_uint epoch)

    unfoldable pub sync_committee_contribution : Slot → ℕ → Root → M World A
    sync_committee_contribution slot subcommittee_index beacon_block_root =
        obtained (codes "sync committee contribution") decode (
          codes "/eth/v1/validator/sync_committee_contribution?slot="
          ++ format_uint slot
          ++ codes "&subcommittee_index="
          ++ format_uint subcommittee_index
          ++ codes "&beacon_block_root="
          ++ format_hex beacon_block_root)

    unfoldable pub node_syncing : M World A
    node_syncing = obtained (codes "syncing") decode (codes "/eth/v1/node/syncing")

  -- None for a 404.
  module _ {A : Type 0} (decode : Bytes → Result (Option A)) where
    abbrev header_of : Option Bytes → M World (Option A)
    header_of none = pure none
    header_of (some body) = parsed server (codes "failed to parse beacon block header") decode body

    unfoldable pub beacon_block_header : Text → M World (Option A)
    beacon_block_header block_id =
        or_wrap (codes "failed to request beacon block header")
          (get server (codes "/eth/v1/beacon/headers/" ++ block_id))
        >>= header_of

  -- `hex.DecodeString` on the field `randao` of the data, which is followed as it is.
  module _ (decode : Bytes → Result (Option Text)) where
    abbrev randao_in : Option Text → M World (Option Root)
    randao_in none = crash
    randao_in (some text) =
        or_wrap (codes "failed to parse state RANDAO value") (lift (decode_0x text)) >>= λ bytes.
        pure (some (copied 32 bytes))

    abbrev randao_of : Option Bytes → M World (Option Root)
    randao_of none = pure none
    randao_of (some body) =
        parsed server (codes "failed to parse state RANDAO") decode body >>= randao_in

    unfoldable pub beacon_state_randao : Text → M World (Option Root)
    beacon_state_randao [] = fail (codes "no state ID specified")
    beacon_state_randao (c ∷ state_id) =
        or_wrap (codes "failed to request state RANDAO")
          (get server (codes "/eth/v1/beacon/states/" ++ (c ∷ state_id) ++ codes "/randao"))
        >>= randao_of

  abbrev time_in : Option Genesis → M World ℤ
  time_in none = crash
  time_in (some g) = pure g.genesis_time

  unfoldable pub genesis_time : Decoders → M World ℤ
  genesis_time decoders =
      or_wrap (codes "failed to obtain genesis") (genesis server decoders) >>= time_in

  -- The type assertion on the value.
  abbrev duration_in : Option SpecValue → M World ℕ
  duration_in (some (duration d)) = pure d
  duration_in _ = crash

  unfoldable pub slot_duration : (Bytes → Result (List (Text × Text))) → M World ℕ
  slot_duration spec_data =
      spec server spec_data >>= λ m. duration_in (find_value (codes "SECONDS_PER_SLOT") m)
