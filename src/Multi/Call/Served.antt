-- ===== src/Multi/Call/Served.antt =====
-- When a call is sure to bring a value.
use mathlib.Core.List.{Memᴰ}
use go_eth2_client.Prelude.{Error, true, Option, none, some, List, ◌≡◌}
use go_eth2_client.Multi.Pool.{Client}
use go_eth2_client.Multi.Call.{Network, Reply, CallFunc, ErrHandlerFunc, handle}

module _ (net : Network) {A : Type 0} (call : CallFunc net A)
    (err_handler : Option (ErrHandlerFunc net)) where
  open net use {World}

  -- A client that replies with a value and no error, in every world.
  abbrev pub Serves : Client → Type 0
  Serves c =
      (w : World)
      → (v : A) × (w' : World) × (call c w ≡ (record { value = some v; error = none }, w'))

  -- A handler that asks for a failover on every error.
  abbrev pub FailsOver : Type 0
  FailsOver = (c : Client) (e : Error) (w : World) → (handle net err_handler c e w).0 ≡ true

  abbrev pub HasValue : Reply A → Type 0
  HasValue r = (v : A) × (r ≡ record { value = some v; error = none })
