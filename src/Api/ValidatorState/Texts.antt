-- ===== src/Api/ValidatorState/Texts.antt =====
-- The texts of the states are read back, in any case of the letters, and nothing else is.
use go_eth2_client.Prelude.{
  Text, to_lower, text_eq, text_eq→eq, ok, Option, none, some, Bool-cases, inl, inr, ◌≡◌, refl, ◌∙◌,
  ap, arith, ◌↔◌, if◌then◌else◌,
}
use go_eth2_client.Api.ValidatorState.{
  ValidatorState, unknown, pending_initialized, pending_queued, active_ongoing, active_exiting,
  active_slashed, exited_unslashed, exited_slashed, withdrawal_possible, withdrawal_done,
  marshal_json, unmarshal_json, recognised, state_of,
}

-- One case of the switch.
case :
    (s : Text) (x : ValidatorState) (rest : Option ValidatorState) {v : ValidatorState}
    → (if text_eq s (marshal_json x) then some x else rest) ≡ some v
    → (rest ≡ some v → s ≡ marshal_json v)
    → s ≡ marshal_json v
case s x rest {v} h other = elim (Bool-cases (text_eq s (marshal_json x))) [
  | inl hit ↦ text_eq→eq s _ hit ∙ (let k : some x ≡ some v = rw hit at h in ap marshal_json (cc))
  | inr miss ↦ other (rw miss at h)
]

state_of-marshal_json : (s : Text) {v : ValidatorState} → state_of s ≡ some v → s ≡ marshal_json v
unfolding marshal_json
state_of-marshal_json s {v} h = case s unknown _ h (λ h. case s pending_initialized _ h (λ h.
    case s pending_queued _ h (λ h. case s active_ongoing _ h (λ h. case s active_exiting _ h (λ h.
      case s active_slashed _ h (λ h. case s exited_unslashed _ h (λ h.
        case s exited_slashed _ h
          (λ h. case s withdrawal_possible _ h (λ h. case s withdrawal_done _ h (λ h. cc))))))))))

recognised-ok :
    (input : Text) (o : Option ValidatorState) {v : ValidatorState}
    → recognised input o ≡ ok v
    → o ≡ some v
recognised-ok input none h = ground arith
recognised-ok input (some w) h = ground arith

recognised_marshal :
    (input : Text) (v : ValidatorState) → recognised input (state_of (marshal_json v)) ≡ ok v
unfolding marshal_json
recognised_marshal input unknown = refl
recognised_marshal input _ = refl

-- A text is read as a validator state exactly when the text in lower case is what the state is
-- written as: what is written is read back, and no other text is read.
pub unmarshal_json_iff :
    (input : Text) (v : ValidatorState)
    → (unmarshal_json input ≡ ok v) ↔ (to_lower input ≡ marshal_json v)
unfolding unmarshal_json
unmarshal_json_iff input v = (
  λ h. state_of-marshal_json (to_lower input) (recognised-ok input _ h),
  λ h. rw h (recognised_marshal input v),
)
