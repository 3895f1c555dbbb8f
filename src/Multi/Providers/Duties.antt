-- ===== src/Multi/Providers/Duties.antt =====
-- multi/*.go: the methods that fetch validators, committees and duties.
use go_eth2_client.Prelude.{Text, Option, none, List, [], Epoch, ValidatorIndex, Gwei, BlsPubKey}
use go_eth2_client.Multi.Pool.{Service}
use go_eth2_client.Multi.Call.{Network}
use go_eth2_client.Multi.Providers.{Method, Answer, fetch}

module _ (net : Network) where
  open net use {World}

  abbrev pub attester_duties :
      {Duty : Type 0}
      → (Epoch → List ValidatorIndex → Method net (List Duty))
      → Epoch
      → List ValidatorIndex
      → Service
      → World
      → Answer net (List Duty)
  attester_duties provider epoch indices = fetch net [] (provider epoch indices)

  abbrev pub proposer_duties :
      {Duty : Type 0}
      → (Epoch → List ValidatorIndex → Method net (List Duty))
      → Epoch
      → List ValidatorIndex
      → Service
      → World
      → Answer net (List Duty)
  proposer_duties provider epoch indices = fetch net [] (provider epoch indices)

  abbrev pub sync_committee_duties :
      {Duty : Type 0}
      → (Epoch → List ValidatorIndex → Method net (List Duty))
      → Epoch
      → List ValidatorIndex
      → Service
      → World
      → Answer net (List Duty)
  sync_committee_duties provider epoch indices = fetch net [] (provider epoch indices)

  abbrev pub beacon_committees :
      {Committee : Type 0}
      → (Text → Method net (List Committee))
      → Text
      → Service
      → World
      → Answer net (List Committee)
  beacon_committees provider state_id = fetch net [] (provider state_id)

  abbrev pub beacon_committees_at_epoch :
      {Committee : Type 0}
      → (Text → Epoch → Method net (List Committee))
      → Text
      → Epoch
      → Service
      → World
      → Answer net (List Committee)
  beacon_committees_at_epoch provider state_id epoch = fetch net [] (provider state_id epoch)

  abbrev pub sync_committee :
      {Committee : Type 0}
      → (Text → Method net (Option Committee))
      → Text
      → Service
      → World
      → Answer net (Option Committee)
  sync_committee provider state_id = fetch net none (provider state_id)

  abbrev pub sync_committee_at_epoch :
      {Committee : Type 0}
      → (Text → Epoch → Method net (Option Committee))
      → Text
      → Epoch
      → Service
      → World
      → Answer net (Option Committee)
  sync_committee_at_epoch provider state_id epoch = fetch net none (provider state_id epoch)

  abbrev pub validators :
      {Validator : Type 0}
      → (Text → List ValidatorIndex → Method net (List (ValidatorIndex × Validator)))
      → Text
      → List ValidatorIndex
      → Service
      → World
      → Answer net (List (ValidatorIndex × Validator))
  validators provider state_id indices = fetch net [] (provider state_id indices)

  abbrev pub validators_by_pubkey :
      {Validator : Type 0}
      → (Text → List BlsPubKey → Method net (List (ValidatorIndex × Validator)))
      → Text
      → List BlsPubKey
      → Service
      → World
      → Answer net (List (ValidatorIndex × Validator))
  validators_by_pubkey provider state_id keys = fetch net [] (provider state_id keys)

  abbrev pub validator_balances :
      (Text → List ValidatorIndex → Method net (List (ValidatorIndex × Gwei)))
      → Text
      → List ValidatorIndex
      → Service
      → World
      → Answer net (List (ValidatorIndex × Gwei))
  validator_balances provider state_id indices = fetch net [] (provider state_id indices)
