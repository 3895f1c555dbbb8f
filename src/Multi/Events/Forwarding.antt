-- ===== src/Multi/Events/Forwarding.antt =====
-- Which clients an event stream covers, and whose events are forwarded.
use mathlib.Core.List.{Perm, perm_middle, perm_append_singleton}
use mathlib.Core.List.Perm
use go_eth2_client.Prelude.{
  Text, Result, ok, err, List, [], ◌∷◌, ◌++◌, text_eq, text_eq→eq, if◌then◌else◌, ◌≢◌, append_assoc,
  arith, length, ◌+◌, ◌≤◌,
}
use go_eth2_client.Multi.Pool.{Client, Service}
use go_eth2_client.Multi.Pool.Partition.{clients}
use go_eth2_client.Multi.Call.{Network}
use go_eth2_client.Multi.Events.{
  Listeners, Subscribe, listen, listen_loop, events, handle_event, service_address,
}

module _ (net : Network) where
  open net use {World, address}

  exclusive :
      {Event : Type 0} (t a b : Text) (x y : Event)
      → a ≢ b
      → length (if text_eq t a then x ∷ [] else []) + length (if text_eq t b then y ∷ [] else [])
        ≤ 1
  exclusive t a b x y h = ground (arith, text_eq→eq t a, text_eq→eq t b)

  -- In one state of the service, of two clients with different addresses at most one has an event
  -- forwarded to the handler.
  pub handle_event_exclusive :
      {Event : Type 0} (a b : Text) (x y : Event) (s : Service)
      → a ≢ b
      → length (handle_event net a x s) + length (handle_event net b y s) ≤ 1
  unfolding handle_event
  handle_event_exclusive a b x y s h = exclusive (service_address net s) a b x y h

  abbrev pub covered : Listeners net → List Client
  covered l = l.listened ++ l.retried

  listen-perm :
      (c : Client) (r : Result (Unit {0})) (l : Listeners net)
      → Perm (covered (listen net c r l)) (c ∷ covered l)
  listen-perm c (err e) l =
      rw (← append_assoc l.listened l.retried (c ∷ [])) (perm_append_singleton c (covered l))
  listen-perm c (ok _) l = rw append_assoc (perm_middle l.listened l.retried)

  listen_loop-perm :
      (subscribe : Subscribe net) (cs : List Client) (l : Listeners net) (w : World)
      → Perm (covered (listen_loop net subscribe cs l w).0) (cs ++ covered l)
  unfolding listen_loop
  listen_loop-perm subscribe [] l w = Perm.refl _
  listen_loop-perm subscribe (c ∷ cs) l w =
      let (r, w') = subscribe c w in
      Perm.trans (listen_loop-perm subscribe cs (listen net c r l) w')
        (Perm.trans (Perm.append_left cs (listen-perm c r l)) (perm_middle cs (covered l)))

  -- An event stream of the service listens at once to, or tries later, each client that the
  -- service has, as often as it has it, whichever subscriptions fail.
  pub events-perm :
      (subscribe : Subscribe net) (s : Service) (w : World)
      → Perm (covered (events net subscribe s w).0) (clients s)
  unfolding events
  events-perm subscribe s w =
      listen_loop-perm subscribe s.active_clients
        (record { listened = []; retried = s.inactive_clients }) w
