-- ===== src/Multi/New.antt =====
-- multi/parameters.go and multi/service.go: the service's parameters and its constructor. The client
-- for an address comes from the constructor of the package `http`, a parameter here.
pub mod Members
use go_eth2_client.Prelude.{
  ℤ, pos, is_zero, ℕ, zero, suc, ◌+◌, Text, codes, Error, Result, ok, err, wrap, Bool, true, false,
  ◌==◌, Option, none, some, List, [], ◌∷◌, ◌++◌, length, if◌then◌else◌, and_then,
}
use go_eth2_client.Multi.Metrics.{
  State, active, inactive, Metrics, Totals, set_provider_active_metric, set_providers_metric,
}
use go_eth2_client.Multi.Pool.{Client, Service, Sorted, store}
use go_eth2_client.Multi.Call.{Network, ping}

-- Durations are in nanoseconds. `monitor` tells the presenter of the metrics service, if one is given.
pub record Parameters : Type 0 where
  pub log_level : ℤ
  pub monitor : Option Text
  pub clients : List Client
  pub addresses : List Text
  pub timeout : ℤ

-- What a `With…` function sets.
pub data Parameter : Type 0 where
  with_log_level : ℤ → Parameter
  with_timeout : ℤ → Parameter
  with_monitor : Option Text → Parameter
  with_clients : List Client → Parameter
  with_addresses : List Text → Parameter

abbrev pub apply : Parameter → Parameters → Parameters
apply (with_log_level l) p = record p { log_level = l }
apply (with_timeout t) p = record p { timeout = t }
apply (with_monitor m) p = record p { monitor = m }
apply (with_clients cs) p = record p { clients = cs }
apply (with_addresses as') p = record p { addresses = as' }

abbrev pub apply_all : List Parameter → Parameters → Parameters
apply_all [] p = p
apply_all (x ∷ xs) p = apply_all xs (apply x p)

-- Two seconds.
abbrev pub default_timeout : ℤ
default_timeout = pos 2000000000

abbrev check_parameters : Parameters → Result Parameters
check_parameters p =
    if is_zero p.timeout
    then err (codes "no timeout specified")
    else if length p.clients + length p.addresses == 0
    then err (codes "no Ethereum 2 clients specified")
    else ok p

-- The global log level is an argument.
unfoldable pub parse_and_check_parameters : ℤ → List Parameter → Result Parameters
parse_and_check_parameters global_level params = check_parameters (
    apply_all params (record {
      log_level = global_level;
      monitor = none;
      clients = [];
      addresses = [];
      timeout = default_timeout;
    }))

abbrev no_providers : Error
no_providers = codes "No providers active, cannot proceed"

-- The end of `New`, on the list of active clients.
abbrev finish_with : List Client → Sorted → Result Service
finish_with [] v = err no_providers
finish_with (c ∷ cs) v = ok (store v)

abbrev finish_new : Sorted → Result Service
finish_new v = finish_with v.active_list v

module _ (net : Network) where
  open net use {World, address}

  -- `http.New` with the log level, the timeout and the address.
  abbrev pub Dial : Type 0
  Dial = ℤ → ℤ → Text → World → Result Client × World

  abbrev sort : Client → Bool → Sorted → Sorted
  sort client true v = record v { active_list = v.active_list ++ client ∷ [] }
  sort client false v = record v { inactive_list = v.inactive_list ++ client ∷ [] }

  -- The loop over the clients that are given.
  pub sort_clients : List Client → Sorted → World → Option (Sorted × World)
  sort_clients [] v w = some (v, w)
  sort_clients (client ∷ cs) v w =
      and_then (ping net client w)
        (λ (answer : Bool × World). sort_clients cs (sort client answer.0 v) answer.1)

  abbrev state_of : Bool → State
  state_of true = active
  state_of false = inactive

  abbrev sort_dialled : Client → Bool → Sorted → Sorted
  sort_dialled client is_ready v = record (sort client is_ready v) {
    gauges = set_provider_active_metric (address client) (state_of is_ready) v.gauges;
  }

  -- One round of the loop over the addresses: an address that gives no client is dropped.
  abbrev dialled : Result Client × World → Sorted → Option (Sorted × World)
  dialled (err e, w) v = some (v, w)
  dialled (ok client, w) v =
      and_then (ping net client w)
        (λ (answer : Bool × World). some (sort_dialled client answer.0 v, answer.1))

  pub sort_addresses : Dial → Parameters → List Text → Sorted → World → Option (Sorted × World)
  sort_addresses dial p [] v w = some (v, w)
  sort_addresses dial p (a ∷ as') v w =
      and_then (dialled (dial p.log_level p.timeout a w) v)
        (λ (x : Sorted × World). sort_addresses dial p as' x.0 x.1)

  -- `New` with the metrics that `registerMetrics` leaves.
  abbrev new_gauged : Dial → Parameters → World → Result Metrics → Option (Result Service × World)
  new_gauged dial p w (err e) = some (err (wrap e (codes "failed to register metrics")), w)
  new_gauged dial p w (ok gauges) =
      let start : Sorted = record { active_list = []; inactive_list = []; gauges = gauges } in
      and_then (sort_clients p.clients start w) (λ (x : Sorted × World).
        and_then (sort_addresses dial p p.addresses x.0 x.1)
          (λ (y : Sorted × World). some (finish_new y.0, y.1)))

  abbrev new_with :
      Dial
      → (Option Text → Result Metrics)
      → World
      → Result Parameters
      → Option (Result Service × World)
  new_with dial register w (err e) = some (err (wrap e (codes "problem with parameters")), w)
  new_with dial register w (ok p) = new_gauged dial p w (register p.monitor)

  -- `New`, up to the start of the monitor; `none` is the panic of a ping.
  unfoldable pub new :
      Dial
      → (Option Text → Result Metrics)
      → ℤ
      → List Parameter
      → World
      → Option (Result Service × World)
  unfolding sort_clients sort_addresses
  new dial register global_level params w =
      new_with dial register w (parse_and_check_parameters global_level params)
