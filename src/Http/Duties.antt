-- ===== src/Http/Duties.antt =====
-- http/proposerduties.go, attesterduties.go, synccommitteeduties.go and stateid.go: duties of an epoch,
-- and the epoch of a state.
pub mod Range
pub mod StateId
use go_eth2_client.Prelude.{
  ℕ, zero, suc, ◌+◌, ◌-◌, ◌*◌, ◌/◌, ◌%◌, Text, Bytes, Slot, Epoch, ValidatorIndex, BlsPubKey, codes,
  Error, Result, ok, err, Ending, returns, panics, Bool, true, false, not, ◌==◌, ltb, ◌||◌, Option,
  none, some, List, [], ◌∷◌, ◌++◌, if◌then◌else◌, text_eq, has_prefix, member, u64_mod,
}
use go_eth2_client.Codec.Decimal.{format_uint, parse_uint}
use go_eth2_client.Spec.Blocks.{Checkpoint}
use go_eth2_client.Http.Service.{Service, Server, M, pure, fail, crash, lift, or_wrap, after, ◌>>=◌}
use go_eth2_client.Http.Get.{get, post}
use go_eth2_client.Http.Static.{request}
use go_eth2_client.Http.Spec.{slots_per_epoch}
use go_eth2_client.Http.Queries.{Finality, finality, parsed}

-- api/v1/proposerduty.go.
pub record ProposerDuty : Type 0 where
  pub public_key : BlsPubKey
  pub slot : Slot
  pub validator_index : ValidatorIndex

-- The range of slots of an epoch, in uint64.
abbrev pub start_slot : Epoch → ℕ → Slot
start_slot epoch slots = epoch * slots % u64_mod

abbrev pub end_slot : Epoch → ℕ → Slot
end_slot epoch slots = (epoch * slots + slots + u64_mod - 1) % u64_mod

abbrev outside : Slot → Slot → Slot → Error
outside slot from till =
    codes "received proposal for slot "
    ++ format_uint slot
    ++ codes " outside of range ["
    ++ format_uint from
    ++ codes ","
    ++ format_uint till
    ++ codes "]"

-- The filter by the indices that are asked for.
abbrev filter_duties : List ValidatorIndex → List ProposerDuty → List ProposerDuty
filter_duties indices [] = []
filter_duties indices (d ∷ ds) =
    if member d.validator_index indices
    then d ∷ filter_duties indices ds
    else filter_duties indices ds

abbrev pub selected : List ValidatorIndex → List ProposerDuty → List ProposerDuty
selected [] ds = ds
selected (i ∷ indices) ds = filter_duties (i ∷ indices) ds

-- The body of a request for duties: `["1","2"]`.
abbrev quoted_indices : List ValidatorIndex → Text
quoted_indices [] = []
quoted_indices (i ∷ []) = b'"' ∷ format_uint i ++ b'"' ∷ []
quoted_indices (i ∷ j ∷ is) = (b'"' ∷ format_uint i ++ b'"' ∷ []) ++ b',' ∷ quoted_indices (j ∷ is)

abbrev pub indices_body : List ValidatorIndex → Text
indices_body is = b'[' ∷ quoted_indices is ++ b']' ∷ []

module _ (server : Server) (spec_data : Bytes → Result (List (Text × Text))) where
  open server use {World}

  -- The loop that checks the slots; a nil duty is followed. It gives the duties that the pointers
  -- lead to.
  abbrev check_slot :
      Slot → Slot → ProposerDuty → M World (List ProposerDuty) → M World (List ProposerDuty)
  check_slot from till d next =
      if ltb d.slot from || ltb till d.slot then fail (outside d.slot from till) else next

  abbrev pub check_slots : Slot → Slot → List (Option ProposerDuty) → M World (List ProposerDuty)
  check_slots from till [] = pure []
  check_slots from till (none ∷ ds) = crash
  check_slots from till (some d ∷ ds) =
      check_slot from till d (check_slots from till ds >>= λ rest. pure (d ∷ rest))

  abbrev pub checked_duties :
      Epoch → List ValidatorIndex → List (Option ProposerDuty) → ℕ → M World (List ProposerDuty)
  checked_duties epoch indices ds slots =
      check_slots (start_slot epoch slots) (end_slot epoch slots) ds >>= λ ds.
      pure (selected indices ds)

  abbrev pub slots_for_duties : M World ℕ
  slots_for_duties =
      or_wrap (codes "failed to obtain slots per epoch") (slots_per_epoch server spec_data)

  abbrev pub duties_in :
      Epoch → List ValidatorIndex → List (Option ProposerDuty) → M World (List ProposerDuty)
  duties_in epoch indices ds = slots_for_duties >>= checked_duties epoch indices ds

  abbrev pub requested_duties :
      (Bytes → Result (List (Option ProposerDuty))) → Epoch → M World (List (Option ProposerDuty))
  requested_duties decode epoch =
      request server (codes "/eth/v1/validator/duties/proposer/" ++ format_uint epoch)
        (codes "failed to request proposer duties") (codes "failed to obtain proposer duties")
      >>= parsed server (codes "failed to parse proposer duties response") decode

  unfoldable pub proposer_duties :
      (Bytes → Result (List (Option ProposerDuty)))
      → Epoch
      → List ValidatorIndex
      → M World (List ProposerDuty)
  proposer_duties decode epoch indices = requested_duties decode epoch >>= duties_in epoch indices

  unfoldable pub attester_duties :
      {Duty : Type 0} → (Bytes → Result Duty) → Epoch → List ValidatorIndex → M World Duty
  attester_duties decode epoch indices =
      or_wrap (codes "failed to request attester duties") (
        post server (codes "/eth/v1/validator/duties/attester/" ++ format_uint epoch)
          (indices_body indices))
      >>= parsed server (codes "failed to parse attester duties response") decode

  unfoldable pub sync_committee_duties :
      {Duty : Type 0} → (Bytes → Result Duty) → Epoch → List ValidatorIndex → M World Duty
  sync_committee_duties decode epoch indices =
      or_wrap (codes "failed to request sync committee duties") (
        post server (codes "/eth/v1/validator/duties/sync/" ++ format_uint epoch)
          (indices_body indices))
      >>= parsed server (codes "failed to parse sync committee duties response") decode

  -- `SlotFromStateID`.
  abbrev bad_state_id : Text → Text
  bad_state_id state_id = codes "failed to parse state ID " ++ state_id ++ codes " as a slot"

  unfoldable pub slot_from_state_id : Text → M World Slot
  slot_from_state_id state_id =
      if text_eq state_id (codes "genesis")
      then pure 0
      else if text_eq state_id (codes "justified")
      then fail (codes "state from justified not implemented")
      else if text_eq state_id (codes "finalized")
      then fail (codes "state from finalized not implemented")
      else if text_eq state_id (codes "head")
      then fail (codes "state from head not implemented")
      else if has_prefix (codes "0x") state_id
      then fail (codes "state from state root not implemented")
      else or_wrap (bad_state_id state_id) (lift (parse_uint state_id))

  abbrev epoch_of : Option Checkpoint → M World Epoch
  epoch_of none = crash
  epoch_of (some c) = pure c.epoch

  -- A division by zero panics.
  abbrev divided : Slot → ℕ → M World Epoch
  divided slot zero = crash
  divided slot (suc n) = pure (slot / suc n)

  abbrev epoch_of_slot : Slot → M World Epoch
  epoch_of_slot slot =
      or_wrap (codes "failed to obtain slots per epoch") (slots_per_epoch server spec_data)
      >>= divided slot

  module _ (finality_data : Bytes → Result (Option Finality)) where
    -- `EpochFromStateID`.
    unfoldable pub epoch_from_state_id : Text → M World Epoch
    epoch_from_state_id state_id =
        if text_eq state_id (codes "genesis")
        then pure 0
        else if text_eq state_id (codes "justified")
        then (or_wrap (codes "failed to obtain finality for justified epoch")
              (finality server finality_data state_id)
            >>= λ f. epoch_of f.justified)
        else if text_eq state_id (codes "finalized")
        then (or_wrap (codes "failed to obtain finality for finalized epoch")
              (finality server finality_data state_id)
            >>= λ f. epoch_of f.finalized)
        else if text_eq state_id (codes "head")
        then fail (codes "epoch from head not implemented")
        else if has_prefix (codes "0x") state_id
        then fail (codes "epoch from state root not implemented")
        else (or_wrap (bad_state_id state_id) (lift (parse_uint state_id)) >>= epoch_of_slot)
