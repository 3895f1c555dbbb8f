-- ===== src/Multi/Pool/Moves.antt =====
-- What one move of a client does to the two lists.
use go_eth2_client.Prelude.{
  Text, not, ◌==◌, List, [], ◌∷◌, ◌++◌, keep, append-nil, append_assoc, length, ◌≡◌, sym, arith,
  some,
}
use go_eth2_client.Multi.Metrics.{Totals}
use go_eth2_client.Multi.Pool.{
  Client, Service, Sorted, deactivate_loop, activate_loop, deactivate_client, activate_client,
  store,
}

-- The clients of a list that are, or are not, the given one.
abbrev pub only : Client → List Client → List Client
only client = keep (λ x. x == client)

abbrev pub others : Client → List Client → List Client
others client = keep (λ x. not (x == client))

module _ (address : Client → Text) (client : Client) where
  deactivate_loop_active :
      (xs : List Client) (v : Sorted)
      → (deactivate_loop address client xs v).active_list ≡ v.active_list ++ others client xs
  unfolding deactivate_loop
  deactivate_loop_active [] v = sym (append-nil _)
  deactivate_loop_active (x ∷ xs) v = grind (arith, deactivate_loop_active xs, append_assoc)

  deactivate_loop_inactive :
      (xs : List Client) (v : Sorted)
      → (deactivate_loop address client xs v).inactive_list ≡ v.inactive_list ++ only client xs
  unfolding deactivate_loop
  deactivate_loop_inactive [] v = sym (append-nil _)
  deactivate_loop_inactive (x ∷ xs) v = grind (arith, deactivate_loop_inactive xs, append_assoc)

  activate_loop_active :
      (xs : List Client) (v : Sorted)
      → (activate_loop address client xs v).active_list ≡ v.active_list ++ only client xs
  unfolding activate_loop
  activate_loop_active [] v = sym (append-nil _)
  activate_loop_active (x ∷ xs) v = grind (arith, activate_loop_active xs, append_assoc)

  activate_loop_inactive :
      (xs : List Client) (v : Sorted)
      → (activate_loop address client xs v).inactive_list ≡ v.inactive_list ++ others client xs
  unfolding activate_loop
  activate_loop_inactive [] v = sym (append-nil _)
  activate_loop_inactive (x ∷ xs) v = grind (arith, activate_loop_inactive xs, append_assoc)

  -- Deactivating takes every occurrence of the client out of the active list and puts it at the end
  -- of the inactive one; nothing else moves.
  pub deactivate_client_lists :
      (s : Service)
      → let t = deactivate_client address client s in
        (t.active_clients ≡ others client s.active_clients)
        × (t.inactive_clients ≡ s.inactive_clients ++ only client s.active_clients)
  unfolding deactivate_client
  deactivate_client_lists s =
      (deactivate_loop_active s.active_clients _, deactivate_loop_inactive s.active_clients _)

  -- Activating is the same move the other way.
  pub activate_client_lists :
      (s : Service)
      → let t = activate_client address client s in
        (t.active_clients ≡ s.active_clients ++ only client s.inactive_clients)
        × (t.inactive_clients ≡ others client s.inactive_clients)
  unfolding activate_client
  activate_client_lists s =
      (activate_loop_active s.inactive_clients _, activate_loop_inactive s.inactive_clients _)

-- The totals that the gauges show are the lengths of the lists.
abbrev pub IsReported : Service → Type 0
IsReported s =
    (t : Totals)
    → s.metrics.providers_metric ≡ some t
    → (t.active_total ≡ length s.active_clients) × (t.inactive_total ≡ length s.inactive_clients)

store-IsReported : (v : Sorted) → IsReported (store v)
store-IsReported v t e = ground arith

-- After each activation and deactivation the gauge of providers, if it is registered, shows the
-- lengths of both lists, whatever it showed before.
pub moves-IsReported :
    (address : Client → Text) (client : Client) (s : Service)
    → IsReported (deactivate_client address client s)
      × IsReported (activate_client address client s)
unfolding deactivate_client activate_client
moves-IsReported address client s = (
  store-IsReported (
      deactivate_loop address client s.active_clients
        (record { active_list = []; inactive_list = s.inactive_clients; gauges = s.metrics })),
  store-IsReported (
      activate_loop address client s.inactive_clients
        (record { active_list = s.active_clients; inactive_list = []; gauges = s.metrics })),
)
