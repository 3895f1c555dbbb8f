-- ===== src/Api/ValidatorState/Tests.antt =====
-- A validator that left, and the texts of its state.
use go_eth2_client.Prelude.{
  codes, to_lower, true, false, ok, some, [], ◌∷◌, ◌≡◌, ◌↔◌, ◌⊎◌, ◌≤◌, ◌<◌, refl, arith,
}
use go_eth2_client.Api.ValidatorState.{
  unknown, active_exiting, active_slashed, Validator, validator_to_state, marshal_json,
  unmarshal_json, is_pending, is_active, has_activated, has_exited, has_balance, is_attesting,
}
use go_eth2_client.Api.ValidatorState.Texts.{unmarshal_json_iff}
use go_eth2_client.Api.ValidatorState.Lifecycle.{
  validator_to_state_tests, validator_to_state_monotone, stage,
}

-- Active from epoch 2 to epoch 10.
abbrev leaver : Validator
leaver = record {
  public_key = [];
  withdrawal_credentials = [];
  effective_balance = 32;
  slashed = false;
  activation_eligibility_epoch = 1;
  activation_epoch = 2;
  exit_epoch = 10;
  withdrawable_epoch = 20;
}

at_five : validator_to_state (some leaver) 5 1000 ≡ active_exiting
unfolding validator_to_state
at_five = refl

unmarshal_json_iff_example :
    (unmarshal_json (codes "\"Active_Slashed\"") ≡ ok active_slashed)
    ↔ (to_lower (codes "\"Active_Slashed\"") ≡ marshal_json active_slashed)
unmarshal_json_iff_example = unmarshal_json_iff (codes "\"Active_Slashed\"") active_slashed

validator_to_state_tests_example :
    let s = validator_to_state (some leaver) 5 1000 in
    ((is_pending s ≡ true) ↔ (5 < 2))
    × ((is_active s ≡ true) ↔ ((2 ≤ 5) × (5 < 10)))
    × ((has_activated s ≡ true) ↔ (2 ≤ 5))
    × ((has_exited s ≡ true) ↔ ((2 ≤ 5) × (10 ≤ 5)))
    × (has_balance s ≡ true)
    × ((is_attesting s ≡ true)
        ↔ ((2 ≤ 5) × (5 < 10) × ((false ≡ false) ⊎ (leaver.exit_epoch ≡ 1000))))
validator_to_state_tests_example = validator_to_state_tests leaver 5 1000

validator_to_state_monotone_example :
    stage (validator_to_state (some leaver) 5 1000)
    ≤ stage (validator_to_state (some leaver) 15 1000)
validator_to_state_monotone_example =
    validator_to_state_monotone (some leaver) 5 15 1000 (omega arith)

-- The Kelvin sign, E2 84 AA in UTF-8, is a K.
kelvin_state :
    unmarshal_json (b'"' ∷ b'u' ∷ b'n' ∷ 226 ∷ 132 ∷ 170 ∷ b'N' ∷ codes "OWN\"") ≡ ok unknown
unfolding unmarshal_json
kelvin_state = refl
