-- ===== src/Clients/Erroring.antt =====
-- testclients/erroring.go: a client that fails calls at a rate, and passes the others on.
use go_eth2_client.Prelude.{
  Text, codes, Error, Result, ok, err, Ending, returns, Bool, true, false, Option, none, some, ◌++◌,
  if◌then◌else◌,
}
use go_eth2_client.Clients.Methods.{
  Interface, Method, interface_of, validator_index_provider, validator_pubkey_provider,
  bls_to_execution_changes_submitter, beacon_state_randao_provider,
  blinded_beacon_block_proposal_provider, sync_state_provider, node_client_provider,
}
use go_eth2_client.Clients.Client.{Values, Client, Call, Args, Returns}

-- `math/rand`, with the numbers of float64.
pub record Random : Type 1 where
  pub World : Type 0
  pub Rate : Type 0
  pub below : Rate → Rate → Bool
  pub zero_rate : Rate
  pub one_rate : Rate
  pub print_rate : Rate → Text
  pub seed : World → World
  pub float64 : World → Rate × World

module _ (v : Values) (World : Type 0) where
  -- The type assertion on the next client, and the call.
  abbrev pub through : Client v World → Error → Call v World
  through next unsupported m a w =
      if next.implements (interface_of m) then next.call m a w else (returns (err unsupported), w)

-- The interfaces whose methods `Erroring` has.
unfoldable pub erroring_implements : Interface → Bool
erroring_implements validator_index_provider = false
erroring_implements validator_pubkey_provider = false
erroring_implements bls_to_execution_changes_submitter = false
erroring_implements beacon_state_randao_provider = false
erroring_implements blinded_beacon_block_proposal_provider = false
erroring_implements sync_state_provider = false
erroring_implements node_client_provider = false
erroring_implements _ = true

module _ (v : Values) (random : Random) where
  open random use {World, Rate, below, zero_rate, one_rate, print_rate, seed, float64}

  pub record Erroring : Type 0 where
    pub error_rate : Rate
    pub next : Client v World

  -- `maybeError`, with the roll.
  abbrev pub maybe_error : Erroring → Rate × World → Option Error × World
  maybe_error s (roll, w) = if below roll s.error_rate then (some (codes "error"), w) else (none, w)

  abbrev pub unsupported_by : Client v World → Error
  unsupported_by next =
      next.client_name ++ codes "@" ++ next.client_address ++ codes " does not support this call"

  abbrev pub after_roll :
      Erroring → (m : Method) → Args v m → Option Error × World → Ending (Returns v m) × World
  after_roll s m a (some e, w) = (returns (err e), w)
  after_roll s m a (none, w) = through v World s.next (unsupported_by s.next) m a w

  -- Each of the methods.
  unfoldable pub erroring_call : Erroring → Call v World
  erroring_call s m a w = after_roll s m a (maybe_error s (float64 w))

  unfoldable pub erroring_client : Erroring → Client v World
  unfolding erroring_call
  erroring_client s = record {
    client_name =
        codes "erroring("
        ++ print_rate s.error_rate
        ++ codes ","
        ++ s.next.client_name
        ++ codes ")";
    client_address =
        codes "erroring:" ++ print_rate s.error_rate ++ codes "," ++ s.next.client_address;
    implements = erroring_implements;
    call = erroring_call s;
  }

  unfoldable pub new_erroring : Rate → Option (Client v World) → World → Result Erroring × World
  new_erroring rate none w = (err (codes "no next service supplied"), w)
  new_erroring rate (some next) w =
      if below rate zero_rate
      then (err (codes "error rate cannot be less than 0"), w)
      else if below one_rate rate
      then (err (codes "error rate cannot be more than 1"), w)
      else (ok (record { error_rate = rate; next = next }), seed w)
