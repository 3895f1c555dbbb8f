-- ===== src/Http/New.antt =====
-- http/parameters.go and the constructor in http/service.go. The HTTP client that it makes is the
-- node's; `base_of` is the text of the URL that `url.Parse` makes of a text.
pub mod Fetched
pub mod Started
use go_eth2_client.Prelude.{
  is_zero, ℕ, zero, suc, Text, Bytes, codes, Error, Result, ok, err, wrap, Ending, returns, panics,
  Bool, true, false, not, ◌==◌, Option, none, some, List, [], ◌∷◌, ◌++◌, has_prefix, has_suffix,
  if◌then◌else◌, text_eq,
}
use go_eth2_client.Spec.DataVersion.{DataVersion}
use go_eth2_client.Spec.Blocks.{SignedBeaconBlock}
use go_eth2_client.Http.Service.{Service, Server, ℤ, pos, negsuc, M, pure, or_wrap, after, ◌>>=◌}
use go_eth2_client.Http.Static.{Decoders, genesis, deposit_contract, fork_schedule, node_version}
use go_eth2_client.Http.Spec.{spec}
use go_eth2_client.Http.Blocks.{ForkDecoders, check_api_versioning}

-- A timeout is in nanoseconds.
pub record Parameters : Type 0 where
  pub log_level : ℤ
  pub address : Text
  pub timeout : ℤ
  pub index_chunk_size : ℤ
  pub pubkey_chunk_size : ℤ

-- What a `With…` function sets.
pub data Parameter : Type 0 where
  with_log_level : ℤ → Parameter
  with_address : Text → Parameter
  with_timeout : ℤ → Parameter
  with_index_chunk_size : ℤ → Parameter
  with_pubkey_chunk_size : ℤ → Parameter

abbrev pub apply : Parameter → Parameters → Parameters
apply (with_log_level l) p = record p { log_level = l }
apply (with_address a) p = record p { address = a }
apply (with_timeout t) p = record p { timeout = t }
apply (with_index_chunk_size n) p = record p { index_chunk_size = n }
apply (with_pubkey_chunk_size n) p = record p { pubkey_chunk_size = n }

abbrev apply_all : List Parameter → Parameters → Parameters
apply_all [] p = p
apply_all (x ∷ xs) p = apply_all xs (apply x p)

abbrev pub check_parameters : Parameters → Result Parameters
check_parameters p =
    if text_eq p.address []
    then err (codes "no address specified")
    else if is_zero p.timeout
    then err (codes "no timeout specified")
    else if is_zero p.index_chunk_size
    then err (codes "no index chunk size specified")
    else if is_zero p.pubkey_chunk_size
    then err (codes "no public key chunk size specified")
    else ok p

-- The global log level is an argument; both sizes are -1 and the timeout two seconds by default.
unfoldable pub parse_and_check_parameters : ℤ → List Parameter → Result Parameters
parse_and_check_parameters global_level params = check_parameters (
    apply_all params (record {
      log_level = global_level;
      address = [];
      timeout = pos 2000000000;
      index_chunk_size = negsuc 0;
      pubkey_chunk_size = negsuc 0;
    }))

-- The address with a scheme, and with a slash at its end.
abbrev with_scheme : Text → Text
with_scheme a = if not (has_prefix (codes "http") a) then codes "http://" ++ a else a

abbrev pub full_address : Text → Text
full_address a =
    if not (has_suffix (codes "/") (with_scheme a))
    then with_scheme a ++ codes "/"
    else with_scheme a

-- The client before anything is fetched.
abbrev pub initial : Parameters → Text → Service
initial p base = record {
  base = base;
  address = p.address;
  genesis = none;
  spec = none;
  deposit_contract = none;
  fork_schedule = none;
  node_version = [];
  supports_v2_beacon_blocks = false;
  supports_v2_beacon_state = false;
  supports_v2_validator_blocks = false;
  user_index_chunk_size = p.index_chunk_size;
  user_pubkey_chunk_size = p.pubkey_chunk_size;
}

-- The end of the constructor.
abbrev pub finished : {W : Type 0} → Ending (Unit {0}) × Service × W → Ending Service × W
finished (panics, s, w) = (panics, w)
finished (returns (err e), s, w) = (returns (err e), w)
finished (returns (ok _), s, w) = (returns (ok s), w)

module _ (server : Server) (decoders : Decoders)
    (spec_data : Bytes → Result (List (Text × Text))) where
  open server use {World}

  abbrev pub fetch_version : M World (Unit {0})
  fetch_version =
      or_wrap (codes "failed to fetch node version") (node_version server decoders) >>= λ v. pure tt

  abbrev pub fetch_forks : M World (Unit {0})
  fetch_forks =
      or_wrap (codes "failed to fetch fork schedule") (fork_schedule server decoders) >>= λ fs.
      fetch_version

  abbrev pub fetch_contract : M World (Unit {0})
  fetch_contract =
      or_wrap (codes "failed to fetch deposit contract") (deposit_contract server decoders) >>= λ d.
      fetch_forks

  abbrev pub fetch_spec_first : M World (Unit {0})
  fetch_spec_first =
      or_wrap (codes "failed to fetch spec") (spec server spec_data) >>= λ m. fetch_contract

  -- `fetchStaticValues`, one fetch after the other.
  unfoldable pub fetch_static_values : M World (Unit {0})
  fetch_static_values =
      or_wrap (codes "failed to fetch genesis") (genesis server decoders) >>= λ g. fetch_spec_first

  module _ (response_version : Bytes → Result DataVersion) (blocks : ForkDecoders SignedBeaconBlock)
      (base_of : Text → Result Text) where
    abbrev pub start : M World (Unit {0})
    start = or_wrap (codes "failed to confirm node connection") fetch_static_values >>= λ u.
        or_wrap (codes "failed to check API versioning")
          (check_api_versioning server response_version blocks)

    abbrev pub new_at : Parameters → World → Result Text → Ending Service × World
    new_at p w (err e) = (returns (err (wrap e (codes "invalid URL"))), w)
    new_at p w (ok base) = finished (start (initial p base) w)

    abbrev pub new_with : World → Result Parameters → Ending Service × World
    new_with w (err e) = (returns (err (wrap e (codes "problem with parameters"))), w)
    new_with w (ok p) = new_at p w (base_of (full_address p.address))

    -- `New`. The tickers that it starts run `clear_static_values` later.
    unfoldable pub new : ℤ → List Parameter → World → Ending Service × World
    unfolding fetch_static_values
    new global_level params w = new_with w (parse_and_check_parameters global_level params)
