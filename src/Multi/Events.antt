-- ===== src/Multi/Events.antt =====
-- multi/events.go and `Address` of multi/service.go: which clients an event stream listens to, and
-- which events reach the handler.
pub mod Forwarding
use go_eth2_client.Prelude.{
  ℕ, zero, suc, Text, codes, Error, Result, ok, err, Bool, true, false, not, Option, none, some,
  List, [], ◌∷◌, ◌++◌, text_eq, if◌then◌else◌,
}
use go_eth2_client.Multi.Pool.{Client, Service}
use go_eth2_client.Multi.Call.{Network, SyncState}

module _ (net : Network) where
  open net use {World, address, node_syncing}

  abbrev first_address : List Client → Text
  first_address [] = codes "none"
  first_address (c ∷ cs) = address c

  -- `Address` of the service.
  unfoldable pub service_address : Service → Text
  service_address s = first_address s.active_clients

  -- `handleEvent` of the handler for the client with the given address: the events that it passes
  -- to the handler of the caller.
  unfoldable pub handle_event : {Event : Type 0} → Text → Event → Service → List Event
  unfolding service_address
  handle_event own event s = if text_eq (service_address s) own then event ∷ [] else []

  -- `Events` of a client, for given topics and the handler made for it.
  abbrev pub Subscribe : Type 0
  Subscribe = Client → World → Result (Unit {0}) × World

  -- The clients to which the stream listens, and those that are tried later.
  pub record Listeners : Type 0 where
    pub listened : List Client
    pub retried : List Client

  abbrev listen : Client → Result (Unit {0}) → Listeners → Listeners
  listen client (err e) l = record l { retried = l.retried ++ client ∷ [] }
  listen client (ok _) l = record l { listened = l.listened ++ client ∷ [] }

  -- The loop over the active clients.
  pub listen_loop : Subscribe → List Client → Listeners → World → Listeners × World
  listen_loop subscribe [] l w = (l, w)
  listen_loop subscribe (client ∷ cs) l w =
      let (r, w') = subscribe client w in listen_loop subscribe cs (listen client r l) w'

  -- `Events` up to the start of the goroutines, one for each client that is tried later.
  unfoldable pub events : Subscribe → Service → World → Listeners × World
  unfolding listen_loop
  events subscribe s w =
      listen_loop subscribe s.active_clients
        (record { listened = []; retried = s.inactive_clients }) w

  -- What one round of such a goroutine leads to. It follows the pointer to the state.
  pub data Round : Type 0 where
    gives_up waits panicked : Round
    subscribes : Result (Unit {0}) → Round

  abbrev subscribed : Result (Unit {0}) × World → Round × World
  subscribed (r, w) = (subscribes r, w)

  abbrev on_sync_state : Subscribe → Client → Result (Option SyncState) × World → Round × World
  on_sync_state subscribe client (err e, w) = (gives_up, w)
  on_sync_state subscribe client (ok none, w) = (panicked, w)
  on_sync_state subscribe client (ok (some state), w) =
      if not state.is_syncing then subscribed (subscribe client w) else (waits, w)

  unfoldable pub retry_round : Subscribe → Client → World → Round × World
  retry_round subscribe client w = elim (node_syncing client) [
    | none ↦ (gives_up, w)
    | some provider ↦ on_sync_state subscribe client (provider w)
  ]
