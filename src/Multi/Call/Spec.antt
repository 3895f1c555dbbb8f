-- ===== src/Multi/Call/Spec.antt =====
-- What a call on several clients promises, as a relation: clients are tried in order, a client that
-- fails or answers nothing is passed over, and the first other reply decides.
use go_eth2_client.Prelude.{Error, true, false, Option, none, some, List, [], ◌∷◌, ◌++◌, map, ◌≡◌}
use go_eth2_client.Multi.Pool.{Client, Service}
use go_eth2_client.Multi.Pool.Partition.{deactivate, run_moves}
use go_eth2_client.Multi.Call.{Network, Reply, CallFunc, ErrHandlerFunc, handle, empty_response}

module _ (net : Network) {A : Type 0} (call : CallFunc net A)
    (err_handler : Option (ErrHandlerFunc net)) where
  open net use {World, address}

  -- `Skips cs e w failed e' w'`: from the error `e` and the world `w` on, all the clients `cs` are
  -- passed over, the clients `failed` of them for an error, which leaves `e'` and `w'`.
  pub data Skips
      : List Client → Option Error → World → List Client → Option Error → World → Type 0 where
    done : {e : Option Error} {w : World} → Skips [] e w [] e w
    empty :
        {c : Client} {cs : List Client} {e : Option Error} {w w1 : World} {failed : List Client}
        {e' : Option Error} {w' : World}
        → call c w ≡ (record { value = none; error = none }, w1)
        → Skips cs (some empty_response) w1 failed e' w'
        → Skips (c ∷ cs) e w failed e' w'
    fails :
        {c : Client} {cs : List Client} {e : Option Error} {w : World} {v : Option A} {e1 : Error}
        {w1 w2 : World} {e2 : Option Error} {failed : List Client} {e' : Option Error} {w' : World}
        → call c w ≡ (record { value = v; error = some e1 }, w1)
        → handle net err_handler c e1 w1 ≡ (true, e2, w2)
        → Skips cs e2 w2 failed e' w'
        → Skips (c ∷ cs) e w (c ∷ failed) e' w'

  abbrev pub deactivated : List Client → Service → Service
  deactivated failed s = run_moves address (map deactivate failed) s

  -- How a call on the clients `cs` may end: a client serves it, a client refuses it with an error
  -- that is no reason for a failover, or all clients were passed over. The clients that failed
  -- before are deactivated, and no other.
  pub data Outcome (cs : List Client) (e : Option Error) (s : Service) (w : World)
      : Reply A × Service × World → Type 0 where
    served :
        (before after failed : List Client) (c : Client) (e' : Option Error) (w1 w2 : World) (v : A)
        → cs ≡ before ++ c ∷ after
        → Skips before e w failed e' w1
        → call c w1 ≡ (record { value = some v; error = none }, w2)
        → Outcome cs e s w (record { value = some v; error = none }, deactivated failed s, w2)
    refused :
        (before after failed : List Client) (c : Client) (e' : Option Error) (w1 w2 w3 : World)
        (v : Option A) (e1 : Error) (e2 : Option Error)
        → cs ≡ before ++ c ∷ after
        → Skips before e w failed e' w1
        → call c w1 ≡ (record { value = v; error = some e1 }, w2)
        → handle net err_handler c e1 w2 ≡ (false, e2, w3)
        → Outcome cs e s w (record { value = v; error = e2 }, deactivated failed s, w3)
    exhausted :
        (failed : List Client) (e' : Option Error) (w1 : World)
        → Skips cs e w failed e' w1
        → Outcome cs e s w (record { value = none; error = e' }, deactivated failed s, w1)
