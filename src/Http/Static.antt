-- ===== src/Http/Static.antt =====
-- The values that a node's client keeps: http/genesis.go, depositcontract.go, forkschedule.go,
-- nodeversion.go and the refresh in service.go. The locks are left out: each method runs alone.
pub mod Frames
use go_eth2_client.Prelude.{
  returns, panics, Text, Bytes, codes, Result, ok, Option, none, some, List, [], ◌∷◌, if◌then◌else◌,
  to_lower, has_prefix,
}
use go_eth2_client.Http.Service.{
  Service, Server, Genesis, DepositContract, Fork, M, pure, fail, crash, lift, or_wrap, ◌>>=◌, ℤ,
}
use go_eth2_client.Http.Get.{get}

-- `json.Decoder` on the bodies of the responses. The field `data` is none if it is absent or null.
pub record Decoders : Type 0 where
  pub genesis_data : Bytes → Result (Option Genesis)
  pub deposit_contract_data : Bytes → Result (Option DepositContract)
  pub fork_schedule_data : Bytes → Result (Option (List (Option Fork)))
  -- The version in the data.
  pub node_version_data : Bytes → Result (Option Text)

module _ (server : Server) where
  open server use {World}

  -- A request for data whose absence is an error.
  abbrev pub need_body : Text → Option Bytes → M World Bytes
  need_body missing none = fail missing
  need_body missing (some body) = pure body

  abbrev pub request : Text → Text → Text → M World Bytes
  request endpoint failed missing = or_wrap failed (get server endpoint) >>= need_body missing

  module _ (decoders : Decoders) where
    open decoders use {genesis_data, deposit_contract_data, fork_schedule_data, node_version_data}

    abbrev pub store_genesis : Option Genesis → M World (Option Genesis)
    store_genesis g s w = (returns (ok g), record s { genesis = g }, w)

    unfoldable pub fetch_genesis : M World (Option Genesis)
    fetch_genesis = do
      body ←
          request (codes "/eth/v1/beacon/genesis") (codes "failed to request genesis")
            (codes "failed to obtain genesis")
      g ← or_wrap (codes "failed to parse genesis") (lift (genesis_data body))
      store_genesis g

    abbrev pub cached_or : {A : Type 0} → Option A → M World (Option A) → M World (Option A)
    cached_or none fetch s w = fetch s w
    cached_or (some a) fetch s w = (returns (ok (some a)), s, w)

    -- `Genesis`, which may be a nil pointer.
    unfoldable pub genesis : M World (Option Genesis)
    unfolding fetch_genesis
    genesis s w = cached_or s.genesis fetch_genesis s w

    abbrev pub store_deposit_contract : Option DepositContract → M World (Option DepositContract)
    store_deposit_contract d s w = (returns (ok d), record s { deposit_contract = d }, w)

    unfoldable pub fetch_deposit_contract : M World (Option DepositContract)
    fetch_deposit_contract = do
      body ←
          request (codes "/eth/v1/config/deposit_contract")
            (codes "failed to request deposit contract") (codes "failed to obtain deposit contract")
      d ← or_wrap (codes "failed to parse deposit contract") (lift (deposit_contract_data body))
      store_deposit_contract d

    unfoldable pub deposit_contract : M World (Option DepositContract)
    unfolding fetch_deposit_contract
    deposit_contract s w = cached_or s.deposit_contract fetch_deposit_contract s w

    abbrev pub store_fork_schedule :
        Option (List (Option Fork)) → M World (Option (List (Option Fork)))
    store_fork_schedule fs s w = (returns (ok fs), record s { fork_schedule = fs }, w)

    unfoldable pub fetch_fork_schedule : M World (Option (List (Option Fork)))
    fetch_fork_schedule = do
      body ←
          request (codes "/eth/v1/config/fork_schedule") (codes "failed to request fork schedule")
            (codes "failed to obtain fork schedule")
      fs ← or_wrap (codes "failed to parse fork schedule") (lift (fork_schedule_data body))
      store_fork_schedule fs

    unfoldable pub fork_schedule : M World (Option (List (Option Fork)))
    unfolding fetch_fork_schedule
    fork_schedule s w = cached_or s.fork_schedule fetch_fork_schedule s w

    -- The data of a version is a pointer that is followed.
    abbrev pub store_node_version : Option Text → M World Text
    store_node_version none s w = (panics, s, w)
    store_node_version (some v) s w = (returns (ok v), record s { node_version = v }, w)

    unfoldable pub fetch_node_version : M World Text
    fetch_node_version = do
      body ←
          request (codes "/eth/v1/node/version") (codes "failed to request node version")
            (codes "failed to obtain node version")
      v ← or_wrap (codes "failed to parse node version") (lift (node_version_data body))
      store_node_version v

    abbrev pub version_or : Text → M World Text → M World Text
    version_or [] fetch s w = fetch s w
    version_or (c ∷ v) fetch s w = (returns (ok (c ∷ v)), s, w)

    unfoldable pub node_version : M World Text
    unfolding fetch_node_version
    node_version s w = version_or s.node_version fetch_node_version s w

    -- `NodeClient`: the name that starts the version, or the whole version in lower case.
    abbrev pub client_name : Text → Text
    client_name v =
        if has_prefix (codes "lighthouse") v
        then codes "lighthouse"
        else if has_prefix (codes "nimbus") v
        then codes "nimbus"
        else if has_prefix (codes "prysm") v
        then codes "prysm"
        else if has_prefix (codes "teku") v
        then codes "teku"
        else v

    unfoldable pub node_client : M World Text
    unfolding node_version
    node_client = node_version >>= λ v. pure (client_name (to_lower v))

    -- `GenesisTime` follows the pointer that `Genesis` returns.
    abbrev time_of : Option Genesis → M World ℤ
    time_of none = crash
    time_of (some g) = pure g.genesis_time

    unfoldable pub genesis_time : M World ℤ
    unfolding genesis
    genesis_time = or_wrap (codes "failed to obtain genesis") genesis >>= time_of

  -- What the ticker of `periodicClearStaticValues` does every five minutes.
  unfoldable pub clear_static_values : Service → Service
  clear_static_values s = record s {
    genesis = none;
    spec = none;
    deposit_contract = none;
    fork_schedule = none;
    node_version = [];
  }
