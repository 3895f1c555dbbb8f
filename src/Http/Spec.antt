-- ===== src/Http/Spec.antt =====
-- http/spec.go, http/slotsperepoch.go: the chain's configuration, with each text turned into a value by
-- its key and its form.
pub mod Kept
use go_eth2_client.Prelude.{
  returns, ℕ, zero, suc, ◌+◌, ◌*◌, ◌%◌, ◌^◌, Text, Bytes, codes, Result, ok, err, Bool, true, false,
  ◌||◌, ◌==◌, leb, Option, none, some, List, [], ◌∷◌, ◌++◌, map, if◌then◌else◌, text_eq, has_prefix,
  has_suffix, take, replicate, u64_mod,
}
use go_eth2_client.Codec.Decimal.{parse_uint}
use go_eth2_client.Codec.Hex.{decode_0x}
use go_eth2_client.Http.Service.{
  Server, SpecValue, SpecMap, domain_type, fork_version, byte_array, time, duration, integer,
  string, ℤ, pos, negsuc, M, pure, crash, lift, or_wrap, ◌>>=◌,
}
use go_eth2_client.Http.Static.{request}

-- `copy` into an array of `n` zero bytes.
abbrev pub copied : ℕ → Bytes → Bytes
copied n bs = take n (bs ++ replicate n 0)

-- `strconv.ParseInt(s, 10, 64)`, without the text of its error.
abbrev i64_bound : ℕ
i64_bound = 2 ^ 63

abbrev positive : Result ℕ → Option ℤ
positive (err e) = none
positive (ok n) = if leb (n + 1) i64_bound then some (pos n) else none

abbrev negated : ℕ → ℤ
negated zero = pos 0
negated (suc n) = negsuc n

abbrev negative : Result ℕ → Option ℤ
negative (err e) = none
negative (ok n) = if leb n i64_bound then some (negated n) else none

abbrev parse_int : Text → Option ℤ
parse_int [] = none
parse_int (c ∷ s) =
    if c == b'-'
    then negative (parse_uint s)
    else if c == b'+'
    then positive (parse_uint s)
    else positive (parse_uint (c ∷ s))

abbrev as_bytes : (Bytes → SpecValue) → Result Bytes → Option SpecValue
as_bytes f (err e) = none
as_bytes f (ok bs) = some (f bs)

abbrev non_zero_time : Option ℤ → Option SpecValue
non_zero_time none = none
non_zero_time (some (pos zero)) = none
non_zero_time (some (pos (suc n))) = some (time (pos (suc n)))
non_zero_time (some (negsuc n)) = some (time (negsuc n))

abbrev non_zero : (ℕ → SpecValue) → Result ℕ → Option SpecValue
non_zero f (err e) = none
non_zero f (ok n) = if n == 0 then none else some (f n)

infixr 4 ◌orelse◌
-- The `continue` of one reading, or the next reading.
abbrev ◌orelse◌ : Option SpecValue → SpecValue → SpecValue
none orelse next = next
(some v) orelse next = v

abbrev when : Bool → Option SpecValue → Option SpecValue
when true o = o
when false o = none

abbrev second : ℕ
second = 1000000000

-- One round of the loop of `Spec`: the value for a key and its text.
unfoldable pub config_value : Text → Text → SpecValue
config_value k v =
    when (has_prefix (codes "DOMAIN_") k) (as_bytes (λ bs. domain_type (copied 4 bs)) (decode_0x v))
    orelse when (has_suffix (codes "_FORK_VERSION") k)
        (as_bytes (λ bs. fork_version (copied 4 bs)) (decode_0x v))
    orelse when (has_prefix (codes "0x") v) (as_bytes byte_array (decode_0x v))
    orelse when (has_suffix (codes "_TIME") k) (non_zero_time (parse_int v))
    orelse when (has_prefix (codes "SECONDS_PER_") k || text_eq k (codes "GENESIS_DELAY"))
        (non_zero (λ n. duration (n * second % u64_mod)) (parse_uint v))
    orelse when (text_eq v (codes "0")) (some (integer 0))
    orelse non_zero integer (parse_uint v)
    orelse string v

abbrev pub find_value : Text → SpecMap → Option SpecValue
find_value k [] = none
find_value k ((j, v) ∷ m) = if text_eq j k then some v else find_value k m

-- `if _, exists := config[k]; !exists { config[k] = v }`.
abbrev pub with_default : Option SpecValue → Text → SpecValue → SpecMap → SpecMap
with_default none k v m = (k, v) ∷ m
with_default (some x) k v m = m

abbrev pub default_value : Text → SpecValue → SpecMap → SpecMap
default_value k v m = with_default (find_value k m) k v m

abbrev pub application_mask : SpecValue
application_mask = domain_type (0 ∷ 0 ∷ 0 ∷ 1 ∷ [])

abbrev pub bls_to_execution_change : SpecValue
bls_to_execution_change = domain_type (10 ∷ 0 ∷ 0 ∷ 0 ∷ [])

-- The domains that not all nodes provide.
abbrev pub with_defaults : SpecMap → SpecMap
with_defaults m = default_value (codes "DOMAIN_APPLICATION_BUILDER") application_mask (
    default_value (codes "DOMAIN_BLS_TO_EXECUTION_CHANGE") bls_to_execution_change
      (default_value (codes "DOMAIN_APPLICATION_MASK") application_mask m))

abbrev pub entry : Text × Text → Text × SpecValue
entry (k, v) = (k, config_value k v)

-- The map that the texts of a response make. Its keys are distinct.
unfoldable pub config : List (Text × Text) → SpecMap
unfolding config_value
config texts = with_defaults (map entry texts)

module _ (server : Server) (spec_data : Bytes → Result (List (Text × Text))) where
  open server use {World}

  abbrev pub store_spec : SpecMap → M World SpecMap
  store_spec m s w = (returns (ok m), record s { spec = some m }, w)

  abbrev pub request_spec : M World Bytes
  request_spec =
      request server (codes "/eth/v1/config/spec") (codes "failed to request spec")
        (codes "failed to obtain spec")

  abbrev pub parse_spec : Bytes → M World (List (Text × Text))
  parse_spec body = or_wrap (codes "failed to parse spec") (lift (spec_data body))

  abbrev pub store_texts : List (Text × Text) → M World SpecMap
  store_texts texts = store_spec (config texts)

  abbrev pub on_spec : Bytes → M World SpecMap
  on_spec body = parse_spec body >>= store_texts

  unfoldable pub fetch_spec : M World SpecMap
  fetch_spec = request_spec >>= on_spec

  abbrev pub spec_or : Option SpecMap → M World SpecMap → M World SpecMap
  spec_or none fetch s w = fetch s w
  spec_or (some m) fetch s w = (returns (ok m), s, w)

  unfoldable pub spec : M World SpecMap
  unfolding fetch_spec
  spec s w = spec_or s.spec fetch_spec s w

  -- An assertion that a value of the map is an integer; a missing key gives nil.
  abbrev pub as_integer : Option SpecValue → M World ℕ
  as_integer (some (integer n)) = pure n
  as_integer _ = crash

  unfoldable pub slots_per_epoch : M World ℕ
  unfolding spec
  slots_per_epoch = spec >>= λ m. as_integer (find_value (codes "SLOTS_PER_EPOCH") m)

  unfoldable pub target_aggregators_per_committee : M World ℕ
  unfolding spec
  target_aggregators_per_committee = or_wrap (codes "failed to obtain spec") spec >>= λ m.
      as_integer (find_value (codes "TARGET_AGGREGATORS_PER_COMMITTEE") m)
