-- ===== src/Api/ValidatorState.antt =====
-- api/v1/validatorstate.go: the states of a validator, their texts, and the state of a validator
-- record of spec/phase0/validator.go at an epoch.
pub mod Texts
pub mod Lifecycle
pub mod Tests
use go_eth2_client.Prelude.{
  ℕ, Text, Bytes, BlsPubKey, Gwei, Epoch, codes, to_lower, text_eq, Error, Result, ok, err, Bool,
  true, false, not, ◌||◌, ◌&&◌, ltb, leb, ◌==◌, if◌then◌else◌, Option, none, some, List, [], ◌∷◌,
  ◌++◌,
}

pub data ValidatorState : Type 0 where
  unknown pending_initialized pending_queued active_ongoing active_exiting active_slashed
        exited_unslashed exited_slashed withdrawal_possible withdrawal_done :
      ValidatorState

-- `String`.
abbrev pub validator_state_string : ValidatorState → Text
validator_state_string unknown = codes "unknown"
validator_state_string pending_initialized = codes "pending_initialized"
validator_state_string pending_queued = codes "pending_queued"
validator_state_string active_ongoing = codes "active_ongoing"
validator_state_string active_exiting = codes "active_exiting"
validator_state_string active_slashed = codes "active_slashed"
validator_state_string exited_unslashed = codes "exited_unslashed"
validator_state_string exited_slashed = codes "exited_slashed"
validator_state_string withdrawal_possible = codes "withdrawal_possible"
validator_state_string withdrawal_done = codes "withdrawal_done"

-- `%q` of a text with nothing to escape.
abbrev pub quoted : Text → Text
quoted s = b'"' ∷ s ++ b'"' ∷ []

unfoldable pub marshal_json : ValidatorState → Text
marshal_json v = quoted (validator_state_string v)

-- The switch of `UnmarshalJSON` on the input in lower case.
abbrev state_of : Text → Option ValidatorState
state_of s =
    if text_eq s (codes "\"unknown\"")
    then some unknown
    else if text_eq s (codes "\"pending_initialized\"")
    then some pending_initialized
    else if text_eq s (codes "\"pending_queued\"")
    then some pending_queued
    else if text_eq s (codes "\"active_ongoing\"")
    then some active_ongoing
    else if text_eq s (codes "\"active_exiting\"")
    then some active_exiting
    else if text_eq s (codes "\"active_slashed\"")
    then some active_slashed
    else if text_eq s (codes "\"exited_unslashed\"")
    then some exited_unslashed
    else if text_eq s (codes "\"exited_slashed\"")
    then some exited_slashed
    else if text_eq s (codes "\"withdrawal_possible\"")
    then some withdrawal_possible
    else if text_eq s (codes "\"withdrawal_done\"")
    then some withdrawal_done
    else none

abbrev recognised : Text → Option ValidatorState → Result ValidatorState
recognised input none = err (codes "unrecognised validator state " ++ input)
recognised input (some v) = ok v

unfoldable pub unmarshal_json : Text → Result ValidatorState
unmarshal_json input = recognised input (state_of (to_lower input))

-- `==` on states, which are integers in the source.
abbrev number : ValidatorState → ℕ
number unknown = 0
number pending_initialized = 1
number pending_queued = 2
number active_ongoing = 3
number active_exiting = 4
number active_slashed = 5
number exited_unslashed = 6
number exited_slashed = 7
number withdrawal_possible = 8
number withdrawal_done = 9

infix 50 ◌≟◌
abbrev ◌≟◌ : ValidatorState → ValidatorState → Bool
v ≟ w = number v == number w

unfoldable pub is_pending : ValidatorState → Bool
is_pending v = v ≟ pending_initialized || v ≟ pending_queued

unfoldable pub is_active : ValidatorState → Bool
is_active v = v ≟ active_ongoing || v ≟ active_exiting || v ≟ active_slashed

unfoldable pub has_activated : ValidatorState → Bool
has_activated v =
    v ≟ active_ongoing
    || v ≟ active_exiting
    || v ≟ active_slashed
    || v ≟ exited_unslashed
    || v ≟ exited_slashed
    || v ≟ withdrawal_possible
    || v ≟ withdrawal_done

unfoldable pub is_attesting : ValidatorState → Bool
is_attesting v = v ≟ active_ongoing || v ≟ active_exiting

unfoldable pub is_exited : ValidatorState → Bool
is_exited v = v ≟ exited_unslashed || v ≟ exited_slashed

unfoldable pub has_exited : ValidatorState → Bool
has_exited v =
    v ≟ exited_unslashed || v ≟ exited_slashed || v ≟ withdrawal_possible || v ≟ withdrawal_done

unfoldable pub has_balance : ValidatorState → Bool
has_balance v = not (v ≟ unknown)

-- spec/phase0/validator.go.
pub record Validator : Type 0 where
  pub public_key : BlsPubKey
  pub withdrawal_credentials : Bytes
  pub effective_balance : Gwei
  pub slashed : Bool
  pub activation_eligibility_epoch : Epoch
  pub activation_epoch : Epoch
  pub exit_epoch : Epoch
  pub withdrawable_epoch : Epoch

abbrev state_at : Validator → Epoch → Epoch → ValidatorState
state_at v current far_future =
    if ltb current v.activation_epoch
    then if v.activation_eligibility_epoch == far_future
      then pending_initialized
      else pending_queued
    else if leb v.activation_epoch current && ltb current v.exit_epoch
    then if v.exit_epoch == far_future
      then active_ongoing
      else if v.slashed
      then active_slashed
      else active_exiting
    else if leb v.exit_epoch current && ltb current v.withdrawable_epoch
    then if v.slashed then exited_slashed else exited_unslashed
    else withdrawal_possible

-- `ValidatorToState`; `none` is a nil pointer.
unfoldable pub validator_to_state : Option Validator → Epoch → Epoch → ValidatorState
validator_to_state none current far_future = unknown
validator_to_state (some v) current far_future = state_at v current far_future
