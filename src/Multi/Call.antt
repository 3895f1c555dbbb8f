-- ===== src/Multi/Call.antt =====
-- multi/client.go: pinging clients, rechecking them, and making a call on the active clients in
-- turn until one succeeds. What the clients do is a parameter, with the world that they change.
pub mod Spec
pub mod Outcomes
pub mod Recheck
pub mod Replies
pub mod Served
pub mod Settled
use go_eth2_client.Prelude.{
  ℕ, Text, codes, Error, Result, ok, err, Bool, true, false, not, ◌&&◌, ◌||◌, ◌==◌, Option, none,
  some, List, [], ◌∷◌, ◌++◌, contains, to_lower, if◌then◌else◌, and_then, ◌≡◌,
}
use go_eth2_client.Multi.Pool.{Client, Service, deactivate_client, activate_client}

-- api/v1/syncstate.go.
pub record SyncState : Type 0 where
  pub head_slot : ℕ
  pub sync_distance : ℕ
  pub is_optimistic : Bool
  pub is_syncing : Bool

-- The clients as the service sees them. `none` is a client that does not implement the interface;
-- the state of the synchronisation comes as a pointer.
pub record Network : Type 1 where
  pub World : Type 0
  pub address : Client → Text
  pub node_syncing : Client → Option (World → Result (Option SyncState) × World)
  pub node_version : Client → Option (World → Result Text × World)

-- What a call function returns: both parts may be nil.
pub record Reply (A : Type 0) : Type 0 where
  pub value : Option A
  pub error : Option Error

abbrev pub no_active_clients : Error
no_active_clients = codes "no active clients to which to make call"

abbrev pub empty_response : Error
empty_response = codes "empty response"

module _ (net : Network) where
  open net use {World, address, node_syncing, node_version}

  abbrev synced : SyncState → Bool
  synced state = not state.is_syncing || (state.head_slot == 0 && state.sync_distance == 0)

  -- A nil pointer is followed.
  abbrev pub ready : Result (Option SyncState) × World → Option (Bool × World)
  ready (ok none, w) = none
  ready (ok (some state), w) = some (synced state, w)
  ready (err e, w) = some (false, w)

  -- From here on, `none` is a panic.
  unfoldable pub ping : Client → World → Option (Bool × World)
  ping client w = elim (node_syncing client) [
    | none ↦ some (false, w)
    | some provider ↦ ready (provider w)
  ]

  -- What the loop of `recheck` does on the answer of a client.
  abbrev pub moved_on : Client → Bool → Service → Service
  moved_on client is_ready s =
      if is_ready then activate_client address client s else deactivate_client address client s

  -- The loop of `recheck`.
  unfoldable pub recheck_loop : List Client → Service → World → Option (Service × World)
  unfolding ping
  recheck_loop [] s w = some (s, w)
  recheck_loop (client ∷ cs) s w =
      and_then (ping client w)
        (λ (answer : Bool × World). recheck_loop cs (moved_on client answer.0 s) answer.1)

  unfoldable pub recheck : Service → World → Option (Service × World)
  unfolding recheck_loop
  recheck s w = recheck_loop (s.active_clients ++ s.inactive_clients) s w

  abbrev pub rechecked_from : List Client → Service → World → Option (Service × World)
  rechecked_from [] s w = recheck s w
  rechecked_from (c ∷ cs) s w = some (s, w)

  -- The service and the world when `doCall` takes the copy of the active clients that it goes
  -- through: it rechecks the clients first if none is active.
  abbrev pub rechecked : Service → World → Option (Service × World)
  rechecked s w = rechecked_from s.active_clients s w

  -- A property of the service and the world at that copy.
  abbrev pub AtCopy : Service → World → (Service → World → Type 0) → Type 0
  AtCopy s w P = (s1 : Service) × (w1 : World) × (rechecked s w ≡ some (s1, w1)) × P s1 w1

  abbrev pub CallFunc : Type 0 → Type 0
  CallFunc A = Client → World → Reply A × World

  -- The flag tells whether the error is worth a failover; the error may be rewritten.
  abbrev pub ErrHandlerFunc : Type 0
  ErrHandlerFunc = Client → Error → World → Bool × Option Error × World

  -- A nil handler fails over on every error, and keeps the error.
  abbrev pub handle : Option ErrHandlerFunc → ErrHandlerFunc
  handle none client e w = (true, some e, w)
  handle (some h) client e w = h client e w

  module _ {A : Type 0} (call : CallFunc A) (err_handler : Option ErrHandlerFunc) where
    -- The ways on from one client of the loop of `doCall`; `rest` is the loop from there.
    abbrev pub Rest : Type 0
    Rest = Option Error → Service → World → Reply A × Service × World

    -- After the error handler.
    on_error :
        Client → Rest → Service → Option A → Bool × Option Error × World → Reply A × Service × World
    on_error client rest s v (true, e, w) = rest e (deactivate_client address client s) w
    on_error client rest s v (false, e, w) = (record { value = v; error = e }, s, w)

    -- After the call.
    on_reply : Client → Rest → Service → Option A → Option Error → World → Reply A × Service × World
    unfolding on_error
    on_reply client rest s v (some e) w = on_error client rest s v (handle err_handler client e w)
    on_reply client rest s none none w = rest (some empty_response) s w
    on_reply client rest s (some v) none w = (record { value = some v; error = none }, s, w)

    -- The loop of `doCall`, with the variable `err`.
    pub call_loop : List Client → Rest
    unfolding on_reply
    call_loop [] e s w = (record { value = none; error = e }, s, w)
    call_loop (client ∷ cs) e s w =
        let (res, w') = call client w in on_reply client (call_loop cs) s res.value res.error w'

    -- The call on a copy of the active clients.
    pub call_active : List Client → Service → World → Reply A × Service × World
    unfolding call_loop
    call_active [] s w = (record { value = none; error = some no_active_clients }, s, w)
    call_active (c ∷ cs) s w = call_loop (c ∷ cs) none s w

    abbrev pub call_rechecked : Option (Service × World) → Option (Reply A × Service × World)
    call_rechecked none = none
    call_rechecked (some (s, w)) = some (call_active s.active_clients s w)

    unfoldable pub do_call : Service → World → Option (Reply A × Service × World)
    unfolding call_active recheck
    do_call s w = call_rechecked (rechecked s w)

  -- The names that `providerInfo` looks for.
  abbrev pub provider_name : Text → Text
  provider_name version =
      if contains (codes "lighthouse") (to_lower version)
      then codes "lighthouse"
      else if contains (codes "prysm") (to_lower version)
      then codes "prysm"
      else if contains (codes "teku") (to_lower version)
      then codes "teku"
      else codes "<unknown>"

  abbrev named : Result Text × World → Text × World
  named (ok version, w) = (provider_name version, w)
  named (err e, w) = (codes "<unknown>", w)

  unfoldable pub provider_info : Client → World → Text × World
  provider_info client w = elim (node_version client) [
    | none ↦ (codes "<unknown>", w)
    | some provider ↦ named (provider w)
  ]
