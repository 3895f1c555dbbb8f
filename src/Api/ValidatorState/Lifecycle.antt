-- ===== src/Api/ValidatorState/Lifecycle.antt =====
-- The state of a validator record against the epochs of its life.
use go_eth2_client.Prelude.{
  ℕ, ◌≤◌, ◌<◌, true, false, Epoch, Option, none, some, ◌≡◌, ◌↔◌, ◌⊎◌, arith,
}
use go_eth2_client.Api.ValidatorState.{
  ValidatorState, unknown, pending_initialized, pending_queued, active_ongoing, active_exiting,
  active_slashed, exited_unslashed, exited_slashed, withdrawal_possible, withdrawal_done, Validator,
  validator_to_state, is_pending, is_active, has_activated, is_attesting, has_exited, has_balance,
}

-- A validator should be attesting at an epoch exactly while it is active and, besides, is not
-- slashed or has no exit set.
is_attesting_iff :
    (v : Validator) (current far_future : Epoch)
    → let s = validator_to_state (some v) current far_future in
      (is_attesting s ≡ true) ↔ (
        (v.activation_epoch ≤ current)
        × (current < v.exit_epoch)
        × ((v.slashed ≡ false) ⊎ (v.exit_epoch ≡ far_future)))
unfolding validator_to_state is_attesting
is_attesting_iff v current far_future = (λ h. ground arith, λ h. ground arith)

-- For a validator record and an epoch, the tests on its state say where the epoch lies: it is
-- pending exactly before its activation, active exactly from its activation to before its exit,
-- has activated exactly from its activation on, has exited exactly if it has activated and its
-- exit has come; it should be attesting exactly while it is active and, besides, is not slashed
-- or has no exit set; and it always has a balance.
pub validator_to_state_tests :
    (v : Validator) (current far_future : Epoch)
    → let s = validator_to_state (some v) current far_future in
      ((is_pending s ≡ true) ↔ (current < v.activation_epoch))
      × ((is_active s ≡ true) ↔ ((v.activation_epoch ≤ current) × (current < v.exit_epoch)))
      × ((has_activated s ≡ true) ↔ (v.activation_epoch ≤ current))
      × ((has_exited s ≡ true) ↔ ((v.activation_epoch ≤ current) × (v.exit_epoch ≤ current)))
      × (has_balance s ≡ true)
      × ((is_attesting s ≡ true) ↔ (
          (v.activation_epoch ≤ current)
          × (current < v.exit_epoch)
          × ((v.slashed ≡ false) ⊎ (v.exit_epoch ≡ far_future))))
unfolding validator_to_state is_pending is_active has_activated has_exited has_balance
validator_to_state_tests v current far_future = (
  (λ h. ground arith, λ h. ground arith),
  (λ h. ground arith, λ h. ground arith),
  (λ h. ground arith, λ h. ground arith),
  (λ h. ground arith, λ h. ground arith),
  ground arith,
  is_attesting_iff v current far_future,
)

-- How far a state is in the life of a validator.
abbrev pub stage : ValidatorState → ℕ
stage unknown = 0
stage pending_initialized = 1
stage pending_queued = 1
stage active_ongoing = 2
stage active_exiting = 2
stage active_slashed = 2
stage exited_unslashed = 3
stage exited_slashed = 3
stage withdrawal_possible = 4
stage withdrawal_done = 5

-- As epochs pass, the state of a validator record, or of none, never goes back to an earlier
-- stage of unknown, pending, active, exited and withdrawal.
pub validator_to_state_monotone :
    (v : Option Validator) (current later far_future : Epoch)
    → current ≤ later
    → stage (validator_to_state v current far_future)
      ≤ stage (validator_to_state v later far_future)
unfolding validator_to_state
validator_to_state_monotone none current later far_future h = omega arith
validator_to_state_monotone (some v) current later far_future h = ground arith
