-- ===== src/Multi/Providers/Chain.antt =====
-- multi/*.go: the methods that fetch what a node knows of the chain and of itself.
use go_eth2_client.Prelude.{
  ℤ, pos, negsuc, Bool, false, Domain, DomainType, Epoch, text_eq, replicate, ℕ, Text, codes,
  Option, none, List, [], ◌==◌, Root,
}
use go_eth2_client.Multi.Pool.{Service}
use go_eth2_client.Multi.Call.{Network, SyncState}
use go_eth2_client.Multi.Providers.{Method, Answer, CheckedAnswer, fetch, fetch_checked}

module _ (net : Network) where
  open net use {World}

  abbrev pub genesis :
      {Genesis : Type 0}
      → Method net (Option Genesis)
      → Service
      → World
      → Answer net (Option Genesis)
  genesis provider = fetch net none provider

  abbrev pub spec :
      {Setting : Type 0}
      → Method net (List (Text × Setting))
      → Service
      → World
      → Answer net (List (Text × Setting))
  spec provider = fetch net [] provider

  abbrev pub fork :
      {Fork : Type 0}
      → (Text → Method net (Option Fork))
      → Text
      → Service
      → World
      → Answer net (Option Fork)
  fork provider state_id = fetch net none (provider state_id)

  abbrev pub fork_schedule :
      {Fork : Type 0} → Method net (List Fork) → Service → World → Answer net (List Fork)
  fork_schedule provider = fetch net [] provider

  abbrev pub finality :
      {Finality : Type 0}
      → (Text → Method net (Option Finality))
      → Text
      → Service
      → World
      → Answer net (Option Finality)
  finality provider state_id = fetch net none (provider state_id)

  abbrev pub deposit_contract :
      {DepositContract : Type 0}
      → Method net (Option DepositContract)
      → Service
      → World
      → Answer net (Option DepositContract)
  deposit_contract provider = fetch net none provider

  abbrev pub node_version : Method net Text → Service → World → Answer net Text
  node_version provider = fetch net [] provider

  abbrev pub node_syncing :
      Method net (Option SyncState) → Service → World → Answer net (Option SyncState)
  node_syncing provider = fetch net none provider

  abbrev pub slot_duration : Method net ℕ → Service → World → CheckedAnswer net ℕ
  slot_duration provider =
      fetch_checked net (λ v. v == 0) (codes "zero duration not a valid response") provider

  abbrev pub slots_per_epoch : Method net ℕ → Service → World → CheckedAnswer net ℕ
  slots_per_epoch provider =
      fetch_checked net (λ v. v == 0) (codes "zero value not a valid response") provider

  abbrev pub far_future_epoch : Method net ℕ → Service → World → CheckedAnswer net ℕ
  far_future_epoch provider =
      fetch_checked net (λ v. v == 0) (codes "zero epoch not a valid response") provider

  abbrev pub target_aggregators_per_committee : Method net ℕ → Service → World → CheckedAnswer net ℕ
  target_aggregators_per_committee provider =
      fetch_checked net (λ v. v == 0) (codes "zero value not a valid response") provider

  -- A time in seconds since 1970. The zero time, the start of year 1, is refused.
  abbrev is_zero_time : ℤ → Bool
  is_zero_time (pos n) = false
  is_zero_time (negsuc n) = n == 62135596799

  abbrev pub genesis_time : Method net ℤ → Service → World → CheckedAnswer net ℤ
  genesis_time provider =
      fetch_checked net is_zero_time (codes "zero genesis time not a valid response") provider

  abbrev pub beacon_state :
      {State : Type 0}
      → (Text → Method net (Option State))
      → Text
      → Service
      → World
      → Answer net (Option State)
  beacon_state provider state_id = fetch net none (provider state_id)

  abbrev pub beacon_state_root :
      (Text → Method net (Option Root)) → Text → Service → World → Answer net (Option Root)
  beacon_state_root provider state_id = fetch net none (provider state_id)

  -- `Domain` refuses the domain of zero bytes.
  abbrev pub domain :
      (DomainType → Epoch → Method net Domain)
      → DomainType
      → Epoch
      → Service
      → World
      → CheckedAnswer net Domain
  domain provider domain_type epoch =
      fetch_checked net (λ d. text_eq d (replicate 32 0))
        (codes "empty domain not a valid response") (provider domain_type epoch)
