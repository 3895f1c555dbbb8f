-- ===== src/Http/Static/Frames.antt =====
-- What the fetches of kept values leave of the client's state: all but the value itself.
use go_eth2_client.Prelude.{Text, codes, Option, none, some, List, [], ◌∷◌, ◌≡◌, refl, ◌∙◌}
use go_eth2_client.Http.Service.{Service, Server, Genesis, DepositContract, Fork, or_wrap, lift}
use go_eth2_client.Http.Service.Frames.{IsSame, after-IsSame, rewrap-IsSame, request-IsSame}
use go_eth2_client.Http.Static.{
  Decoders, cached_or, genesis, fetch_genesis, store_genesis, deposit_contract,
  fetch_deposit_contract, store_deposit_contract, fork_schedule, fetch_fork_schedule,
  store_fork_schedule, node_version, fetch_node_version, store_node_version, version_or,
}

module _ (server : Server) (decoders : Decoders) {X : Type 0} (view : Service → X) where
  open server use {World}

  module _
      (blind : (s : Service) (o : Option Genesis) → view (record s { genesis = o }) ≡ view s) where
    fetch_genesis-IsSame :
        (s : Service) (w : World) → IsSame view s (fetch_genesis server decoders s w)
    unfolding fetch_genesis
    fetch_genesis-IsSame s w =
        after-IsSame view s _ _
          (request-IsSame server view (codes "/eth/v1/beacon/genesis")
            (codes "failed to request genesis") (codes "failed to obtain genesis") s w)
          (λ body s' w' e.
            after-IsSame view s' (store_genesis server decoders)
              (or_wrap (codes "failed to parse genesis") (lift (decoders.genesis_data body)) s' w')
              (rewrap-IsSame view s' (codes "failed to parse genesis")
                (lift (decoders.genesis_data body) s' w') refl)
              (λ o s1 w1 e1. blind s1 o ∙ e1)
            ∙ e)

    genesis_or-IsSame :
        (o : Option Genesis) (s : Service) (w : World)
        → IsSame view s (cached_or server decoders o (fetch_genesis server decoders) s w)
    genesis_or-IsSame none s w = fetch_genesis-IsSame s w
    genesis_or-IsSame (some g) s w = refl

    pub genesis-IsSame : (s : Service) (w : World) → IsSame view s (genesis server decoders s w)
    unfolding genesis
    genesis-IsSame s w = genesis_or-IsSame s.genesis s w

  module _
      (blind : (s : Service) (o : Option DepositContract)
        → view (record s { deposit_contract = o }) ≡ view s) where
    fetch_deposit_contract-IsSame :
        (s : Service) (w : World) → IsSame view s (fetch_deposit_contract server decoders s w)
    unfolding fetch_deposit_contract
    fetch_deposit_contract-IsSame s w =
        after-IsSame view s _ _
          (request-IsSame server view (codes "/eth/v1/config/deposit_contract")
            (codes "failed to request deposit contract") (codes "failed to obtain deposit contract")
            s w)
          (λ body s' w' e.
            after-IsSame view s' (store_deposit_contract server decoders)
              (or_wrap (codes "failed to parse deposit contract")
                (lift (decoders.deposit_contract_data body)) s' w')
              (rewrap-IsSame view s' (codes "failed to parse deposit contract")
                (lift (decoders.deposit_contract_data body) s' w') refl)
              (λ o s1 w1 e1. blind s1 o ∙ e1)
            ∙ e)

    deposit_contract_or-IsSame :
        (o : Option DepositContract) (s : Service) (w : World)
        → IsSame view s (cached_or server decoders o (fetch_deposit_contract server decoders) s w)
    deposit_contract_or-IsSame none s w = fetch_deposit_contract-IsSame s w
    deposit_contract_or-IsSame (some g) s w = refl

    pub deposit_contract-IsSame :
        (s : Service) (w : World) → IsSame view s (deposit_contract server decoders s w)
    unfolding deposit_contract
    deposit_contract-IsSame s w = deposit_contract_or-IsSame s.deposit_contract s w

  module _
      (blind : (s : Service) (o : Option (List (Option Fork)))
        → view (record s { fork_schedule = o }) ≡ view s) where
    fetch_fork_schedule-IsSame :
        (s : Service) (w : World) → IsSame view s (fetch_fork_schedule server decoders s w)
    unfolding fetch_fork_schedule
    fetch_fork_schedule-IsSame s w =
        after-IsSame view s _ _
          (request-IsSame server view (codes "/eth/v1/config/fork_schedule")
            (codes "failed to request fork schedule") (codes "failed to obtain fork schedule") s w)
          (λ body s' w' e.
            after-IsSame view s' (store_fork_schedule server decoders)
              (or_wrap (codes "failed to parse fork schedule")
                (lift (decoders.fork_schedule_data body)) s' w')
              (rewrap-IsSame view s' (codes "failed to parse fork schedule")
                (lift (decoders.fork_schedule_data body) s' w') refl)
              (λ o s1 w1 e1. blind s1 o ∙ e1)
            ∙ e)

    fork_schedule_or-IsSame :
        (o : Option (List (Option Fork))) (s : Service) (w : World)
        → IsSame view s (cached_or server decoders o (fetch_fork_schedule server decoders) s w)
    fork_schedule_or-IsSame none s w = fetch_fork_schedule-IsSame s w
    fork_schedule_or-IsSame (some g) s w = refl

    pub fork_schedule-IsSame :
        (s : Service) (w : World) → IsSame view s (fork_schedule server decoders s w)
    unfolding fork_schedule
    fork_schedule-IsSame s w = fork_schedule_or-IsSame s.fork_schedule s w

  module _ (blind : (s : Service) (v : Text) → view (record s { node_version = v }) ≡ view s) where
    store-IsSame :
        (o : Option Text) (s : Service) (w : World)
        → IsSame view s (store_node_version server decoders o s w)
    store-IsSame none s w = refl
    store-IsSame (some v) s w = blind s v

    fetch-IsSame :
        (s : Service) (w : World) → IsSame view s (fetch_node_version server decoders s w)
    unfolding fetch_node_version
    fetch-IsSame s w =
        after-IsSame view s _ _
          (request-IsSame server view (codes "/eth/v1/node/version")
            (codes "failed to request node version") (codes "failed to obtain node version") s w)
          (λ body s' w' e.
            after-IsSame view s' (store_node_version server decoders)
              (or_wrap (codes "failed to parse node version")
                (lift (decoders.node_version_data body)) s' w')
              (rewrap-IsSame view s' (codes "failed to parse node version")
                (lift (decoders.node_version_data body) s' w') refl)
              (λ o s1 w1 e1. store-IsSame o s1 w1 ∙ e1)
            ∙ e)

    pub version_or-IsSame :
        (v : Text) (s : Service) (w : World)
        → IsSame view s (version_or server decoders v (fetch_node_version server decoders) s w)
    version_or-IsSame [] s w = fetch-IsSame s w
    version_or-IsSame (c ∷ v) s w = refl

    pub node_version-IsSame :
        (s : Service) (w : World) → IsSame view s (node_version server decoders s w)
    unfolding node_version
    node_version-IsSame s w = version_or-IsSame s.node_version s w
