-- ===== src/Multi/Providers.antt =====
-- The methods of the service over several clients that fetch or submit data: multi/*.go but for
-- client.go, service.go and events.go. Each makes one call of `doCall`.
pub mod Chain
pub mod Duties
pub mod Blocks
pub mod Submit
pub mod Results
pub mod Attestations
use go_eth2_client.Prelude.{
  ℕ, Text, codes, Error, Result, ok, err, Bool, true, false, ◌==◌, ◌&&◌, text_eq, contains,
  if◌then◌else◌, Option, none, some, List, [], ◌∷◌, replicate,
}
use go_eth2_client.Multi.Pool.{Client, Service}
use go_eth2_client.Multi.Call.{Network, Reply, CallFunc, ErrHandlerFunc, do_call, provider_info}

module _ (net : Network) where
  open net use {World}

  -- A method of a client that may fail.
  abbrev pub Method : Type 0 → Type 0
  Method A = Client → World → Result A × World

  -- What the service's method returns; `none` is a panic of the recheck.
  abbrev pub Answer : Type 0 → Type 0
  Answer A = Option (Result A × Service × World)

  -- What a method returns that asserts the type of its result: the `none` within is the panic of an
  -- assertion that fails.
  abbrev pub CheckedAnswer : Type 0 → Type 0
  CheckedAnswer A = Option (Option (Result A) × Service × World)

  -- What a method that submits data returns.
  abbrev pub Submission : Type 0
  Submission = Option (Option Error × Service × World)

  -- The call function that passes a client's result on. An interface value that holds a nil pointer,
  -- a nil map or an empty text is not nil, so every result without an error counts as a value.
  abbrev pub passed : {A : Type 0} → Result A × World → Reply A × World
  passed (ok a, w) = (record { value = some a; error = none }, w)
  passed (err e, w) = (record { value = none; error = some e }, w)

  pub call_provider : {A : Type 0} → Method A → CallFunc net A
  call_provider provider client w = passed (provider client w)

  -- The call function that refuses a result that cannot be meant.
  abbrev pub checked : {A : Type 0} → (A → Bool) → Error → Result A × World → Reply A × World
  checked is_bad e (ok a, w) =
      if is_bad a
      then (record { value = none; error = some e }, w)
      else (record { value = some a; error = none }, w)
  checked is_bad e (err e', w) = (record { value = none; error = some e' }, w)

  pub call_checked : {A : Type 0} → (A → Bool) → Error → Method A → CallFunc net A
  call_checked is_bad e provider client w = checked is_bad e (provider client w)

  -- The end of a method: the error, or nil for no result, or the result. `A` is a type with a nil
  -- value, `nil`.
  abbrev pub finish : {A : Type 0} → A → Option (Reply A × Service × World) → Answer A
  finish nil none = none
  finish nil (some (r, s, w)) = elim r.error [
    | some e ↦ some (err e, s, w)
    | none ↦ elim r.value [ none ↦ some (ok nil, s, w) | some a ↦ some (ok a, s, w) ]
  ]

  -- Genesis, Spec, Validators and the other methods that hand a client's result on.
  unfoldable pub fetch : {A : Type 0} → A → Method A → Service → World → Answer A
  unfolding call_provider
  fetch nil provider s w = finish nil (do_call net (call_provider provider) none s w)

  -- The end of a method whose result type has no nil.
  abbrev pub finish_checked : {A : Type 0} → Option (Reply A × Service × World) → CheckedAnswer A
  finish_checked none = none
  finish_checked (some (r, s, w)) = elim r.error [
    | some e ↦ some (some (err e), s, w)
    | none ↦ elim r.value [ none ↦ some (none, s, w) | some a ↦ some (some (ok a), s, w) ]
  ]

  -- SlotDuration, Domain and the other methods that check a client's result.
  unfoldable pub fetch_checked :
      {A : Type 0} → (A → Bool) → Error → Method A → Service → World → CheckedAnswer A
  unfolding call_checked
  fetch_checked is_bad e provider s w =
      finish_checked (do_call net (call_checked is_bad e provider) none s w)

  -- The end of a method that submits data.
  abbrev pub finish_submit : Option (Reply Bool × Service × World) → Submission
  finish_submit none = none
  finish_submit (some (r, s, w)) = some (r.error, s, w)

  abbrev pub submitted : Result (Unit {0}) × World → Reply Bool × World
  submitted (ok _, w) = (record { value = some true; error = none }, w)
  submitted (err e, w) = (record { value = none; error = some e }, w)

  pub call_submitter : Method (Unit {0}) → CallFunc net Bool
  call_submitter submitter client w = submitted (submitter client w)

  -- The methods that submit data, with their error handler.
  unfoldable pub submit :
      Option (ErrHandlerFunc net) → Method (Unit {0}) → Service → World → Submission
  unfolding call_submitter
  submit err_handler submitter s w =
      finish_submit (do_call net (call_submitter submitter) err_handler s w)
