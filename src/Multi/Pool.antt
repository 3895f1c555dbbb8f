-- ===== src/Multi/Pool.antt =====
-- multi/service.go and multi/client.go: the lists of active and inactive clients, and the two
-- operations that move a client between them under the service's lock.
pub mod Moves
pub mod Partition
use go_eth2_client.Prelude.{ℕ, Text, Bool, true, false, ◌==◌, List, [], ◌∷◌, ◌++◌, length}
use go_eth2_client.Multi.Metrics.{
  State, active, inactive, Metrics, set_provider_active_metric, set_providers_metric,
}

-- A client is an interface value; `==` on two of them compares the pointers, here numbers.
abbrev pub Client : Type 0
Client = ℕ

pub record Service : Type 0 where
  pub active_clients : List Client
  pub inactive_clients : List Client
  pub metrics : Metrics

-- The variables of the loops of `activateClient` and `deactivateClient`.
pub record Sorted : Type 0 where
  pub active_list : List Client
  pub inactive_list : List Client
  pub gauges : Metrics

-- What both operations store back, with the totals that they report.
abbrev pub store : Sorted → Service
store v = record {
  active_clients = v.active_list;
  inactive_clients = v.inactive_list;
  metrics =
      set_providers_metric inactive (length v.inactive_list)
        (set_providers_metric active (length v.active_list) v.gauges);
}

-- `Address` of each client.
module _ (address : Client → Text) where
  -- The loop of `deactivateClient` over the active clients.
  deactivate_loop : Client → List Client → Sorted → Sorted
  deactivate_loop client [] v = v
  deactivate_loop client (x ∷ xs) v = elim (x == client) [
    | true ↦ deactivate_loop client xs (record v {
      inactive_list = v.inactive_list ++ x ∷ [];
      gauges = set_provider_active_metric (address client) inactive v.gauges;
    })
    | false ↦ deactivate_loop client xs (record v { active_list = v.active_list ++ x ∷ [] })
  ]

  -- The loop of `activateClient` over the inactive clients.
  activate_loop : Client → List Client → Sorted → Sorted
  activate_loop client [] v = v
  activate_loop client (x ∷ xs) v = elim (x == client) [
    | true ↦ activate_loop client xs (record v {
      active_list = v.active_list ++ x ∷ [];
      gauges = set_provider_active_metric (address client) active v.gauges;
    })
    | false ↦ activate_loop client xs (record v { inactive_list = v.inactive_list ++ x ∷ [] })
  ]

  unfoldable pub deactivate_client : Client → Service → Service
  unfolding deactivate_loop
  deactivate_client client s = store (
      deactivate_loop client s.active_clients
        (record { active_list = []; inactive_list = s.inactive_clients; gauges = s.metrics }))

  unfoldable pub activate_client : Client → Service → Service
  unfolding activate_loop
  activate_client client s = store (
      activate_loop client s.inactive_clients
        (record { active_list = s.active_clients; inactive_list = []; gauges = s.metrics }))
