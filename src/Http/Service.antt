-- ===== src/Http/Service.antt =====
-- http/service.go: the state of the client of one node, and the shape of its methods. The node, with
-- the network before it, is a parameter that answers requests and changes the world.
pub mod Steps
pub mod Frames
pub use go_eth2_client.Prelude.{ℤ, pos, negsuc}
use go_eth2_client.Prelude.{
  ℕ, Text, Bytes, Root, Version, DomainType, Epoch, Error, Result, ok, err, wrap, Ending, returns,
  panics, Bool, true, false, Option, none, some, List, ltb, leb,
}

-- api/v1/genesis.go.
pub record Genesis : Type 0 where
  pub genesis_time : ℤ
  pub genesis_validators_root : Root
  pub genesis_fork_version : Version

-- api/v1/depositcontract.go.
pub record DepositContract : Type 0 where
  pub chain_id : ℕ
  pub contract_address : Bytes

-- spec/phase0/fork.go.
pub record Fork : Type 0 where
  pub previous_version : Version
  pub current_version : Version
  pub epoch : Epoch

-- A value of the map that `Spec` returns; a duration is its bits as an int64, in nanoseconds.
pub data SpecValue : Type 0 where
  domain_type : DomainType → SpecValue
  fork_version : Version → SpecValue
  byte_array : Bytes → SpecValue
  time : ℤ → SpecValue
  duration : ℕ → SpecValue
  integer : ℕ → SpecValue
  string : Text → SpecValue

abbrev pub SpecMap : Type 0
SpecMap = List (Text × SpecValue)

pub record Service : Type 0 where
  pub base : Text
  pub address : Text
  pub genesis : Option Genesis
  pub spec : Option SpecMap
  pub deposit_contract : Option DepositContract
  pub fork_schedule : Option (List (Option Fork))
  pub node_version : Text
  pub supports_v2_beacon_blocks : Bool
  pub supports_v2_beacon_state : Bool
  pub supports_v2_validator_blocks : Bool
  pub user_index_chunk_size : ℤ
  pub user_pubkey_chunk_size : ℤ

pub data Verb : Type 0 where
  get_verb post_verb : Verb

pub record Request : Type 0 where
  pub verb : Verb
  pub url : Text
  pub body : Bytes

-- `content` is an error if the body cannot be read.
pub record Response : Type 0 where
  pub status_code : ℕ
  pub content : Result Bytes

-- `valid_url` is `url.Parse`, which may refuse a text; `respond` is `Do` of the HTTP client.
pub record Server : Type 1 where
  pub World : Type 0
  pub valid_url : Text → Result (Unit {0})
  pub respond : Request → World → Result Response × World

-- A method: from the client's state and the world, of the type `W`.
abbrev pub M : Type 0 → Type 0 → Type 0
M W A = Service → W → Ending A × Service × W

abbrev pub pure : {W : Type 0} {A : Type 0} → A → M W A
pure a s w = (returns (ok a), s, w)

abbrev pub fail : {W : Type 0} {A : Type 0} → Error → M W A
fail e s w = (returns (err e), s, w)

abbrev pub crash : {W : Type 0} {A : Type 0} → M W A
crash s w = (panics, s, w)

-- The rest of a method after a call that it makes.
abbrev pub after :
    {W : Type 0} {A B : Type 0} → (A → M W B) → Ending A × Service × W → Ending B × Service × W
after f (panics, s, w) = (panics, s, w)
after f (returns (err e), s, w) = (returns (err e), s, w)
after f (returns (ok a), s, w) = f a s w

infixl 5 ◌>>=◌
abbrev pub ◌>>=◌ : {W : Type 0} {A B : Type 0} → M W A → (A → M W B) → M W B
◌>>=◌ m f s w = after f (m s w)

-- `errors.Wrap` on the error of a call.
abbrev pub rewrap :
    {W : Type 0} {A : Type 0} → Text → Ending A × Service × W → Ending A × Service × W
rewrap message (panics, s, w) = (panics, s, w)
rewrap message (returns (err e), s, w) = (returns (err (wrap e message)), s, w)
rewrap message (returns (ok a), s, w) = (returns (ok a), s, w)

abbrev pub or_wrap : {W : Type 0} {A : Type 0} → Text → M W A → M W A
or_wrap message m s w = rewrap message (m s w)

-- A result of a pure step, and a test that stands before the rest of a method.
abbrev pub lift : {W : Type 0} {A : Type 0} → Result A → M W A
lift r s w = (returns r, s, w)

-- A result of a pure step that may panic.
abbrev pub lift_ending : {W : Type 0} {A : Type 0} → Ending A → M W A
lift_ending r s w = (r, s, w)

abbrev pub current : {W : Type 0} → M W Service
current s w = (returns (ok s), s, w)
