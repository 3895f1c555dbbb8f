-- ===== src/Http/Chunks.antt =====
-- http/validators.go, validatorsbypubkey.go and validatorbalances.go: requests for many validators,
-- made a chunk at a time. `K` is the type of what a validator is asked by, an index or a public key,
-- and `V` that of what is told of it.
pub mod Cover
pub mod Depth
pub mod Sizes
pub mod Calls
pub mod Lengths
use go_eth2_client.Prelude.{
  Ending, returns, panics, ℕ, zero, suc, ◌+◌, ◌-◌, Text, Bytes, ValidatorIndex, BlsPubKey, codes,
  Error, Result, ok, err, Bool, true, false, ltb, Option, none, some, List, [], ◌∷◌, ◌++◌, map,
  if◌then◌else◌, take, drop, length, contains, to_lower,
}
use go_eth2_client.Codec.Decimal.{format_uint}
use go_eth2_client.Codec.Hex.{format_hex}
use go_eth2_client.Http.Service.{
  Service, Server, ℤ, pos, negsuc, M, pure, fail, crash, lift, or_wrap, after, ◌>>=◌,
}
use go_eth2_client.Http.Get.{get}
use go_eth2_client.Http.Static.{Decoders, node_version, request}

-- The tables of chunk sizes by the node's name, all alike.
abbrev pub size_for : ℕ → ℕ → ℕ → ℕ → ℕ → Text → ℕ
size_for lighthouse nimbus prysm teku default version =
    if contains (codes "lighthouse") version
    then lighthouse
    else if contains (codes "nimbus") version
    then nimbus
    else if contains (codes "prysm") version
    then prysm
    else if contains (codes "teku") version
    then teku
    else default

abbrev pub index_size_for : Text → ℕ
index_size_for = size_for 1000 1000 1000 1000 1000

abbrev pub pubkey_size_for : Text → ℕ
pubkey_size_for = size_for 75 75 75 75 75

-- `strings.Join(ids, ",")`.
abbrev pub join : List Text → Text
join [] = []
join (t ∷ []) = t
join (t ∷ u ∷ ts) = t ++ b',' ∷ join (u ∷ ts)

-- The chunks that the loop of a chunked request cuts, on fuel: the number of validators is enough,
-- since each chunk takes one at least.
unfoldable pub chunks : {K : Type 0} → ℕ → ℕ → List K → List (List K)
chunks zero size ids = []
chunks (suc fuel) size [] = []
chunks (suc fuel) size (x ∷ xs) = take size (x ∷ xs) ∷ chunks fuel size (drop size (x ∷ xs))

-- A Go map, the newest entry first.
abbrev pub Found : Type 0 → Type 0
Found V = List (ValidatorIndex × V)

-- `res[k] = v` for each entry in turn.
abbrev pub put_all : {V : Type 0} → Found V → Found V → Found V
put_all [] res = res
put_all (kv ∷ kvs) res = put_all kvs (kv ∷ res)

-- The texts by which the three kinds of requests differ.
pub record Words : Type 0 where
  pub endpoint : Text
  pub failed : Text
  pub missing : Text
  pub unparsed : Text
  pub nothing : Text

abbrev pub validator_words : Words
validator_words = record {
  endpoint = codes "validators";
  failed = codes "failed to request validators";
  missing = codes "failed to obtain validators";
  unparsed = codes "failed to parse validators";
  nothing = codes "no validators returned";
}

abbrev pub balance_words : Words
balance_words = record {
  endpoint = codes "validator_balances";
  failed = codes "failed to request validator balances";
  missing = codes "failed to obtain validator balances";
  unparsed = codes "failed to parse validator balances";
  nothing = codes "no validator balances returned";
}

module _ (server : Server) where
  open server use {World}

  -- `nodeVersion, _ := s.NodeVersion(ctx)`.
  abbrev pub unless_error : Ending Text × Service × World → Ending Text × Service × World
  unless_error (panics, s, w) = (panics, s, w)
  unless_error (returns (err e), s, w) = (returns (ok []), s, w)
  unless_error (returns (ok v), s, w) = (returns (ok v), s, w)

  abbrev pub sized : Decoders → (Text → ℕ) → ℤ → M World ℕ
  sized decoders size_of (pos (suc n)) = pure (suc n)
  sized decoders size_of _ =
      (λ s w. unless_error (node_version server decoders s w)) >>= λ v. pure (size_of (to_lower v))

  unfoldable pub index_chunk_size : Decoders → M World ℕ
  index_chunk_size decoders s w = sized decoders index_size_for s.user_index_chunk_size s w

  unfoldable pub pubkey_chunk_size : Decoders → M World ℕ
  pubkey_chunk_size decoders s w = sized decoders pubkey_size_for s.user_pubkey_chunk_size s w

  module _ {K V : Type 0} (print : K → Text) (chunk_size : M World ℕ) (words : Words)
      (decode : Bytes → Result (Option (List (Option (ValidatorIndex × V))))) where
    open words use {endpoint, failed, missing, unparsed, nothing}

    abbrev pub query : List K → Text
    query [] = []
    query (k ∷ ks) = codes "?id=" ++ join (map print (k ∷ ks))

    abbrev pub url : Text → List K → Text
    url state_id ids =
        codes "/eth/v1/beacon/states/" ++ state_id ++ codes "/" ++ endpoint ++ query ids

    -- The index and the value of each entry; a nil pointer among them is followed.
    abbrev pub entries_of : List (Option (ValidatorIndex × V)) → M World (Found V)
    entries_of [] = pure []
    entries_of (none ∷ kvs) = crash
    entries_of (some kv ∷ kvs) = entries_of kvs >>= λ rest. pure (kv ∷ rest)

    abbrev pub indexed : Option (List (Option (ValidatorIndex × V))) → M World (Found V)
    indexed none = fail nothing
    indexed (some kvs) = entries_of kvs >>= λ found. pure (put_all found [])

    -- The request for all the validators at once.
    pub at_once : Text → List K → M World (Found V)
    at_once state_id ids = do
      body ← request server (url state_id ids) failed missing
      found ← or_wrap unparsed (lift (decode body))
      indexed found

    -- The loop over the chunks; `ask` requests one.
    pub chunk_loop :
        (Text → List K → M World (Found V)) → Text → List (List K) → Found V → M World (Found V)
    chunk_loop ask state_id [] res = pure res
    chunk_loop ask state_id (chunk ∷ rest) res =
        or_wrap (codes "failed to obtain chunk") (ask state_id chunk) >>= λ found.
        chunk_loop ask state_id rest (put_all found res)

    pub chunked : (Text → List K → M World (Found V)) → Text → List K → M World (Found V)
    unfolding chunk_loop
    chunked ask state_id ids =
        chunk_size >>= λ size. chunk_loop ask state_id (chunks (length ids) size ids) []

    abbrev pub if_larger :
        (Text → List K → M World (Found V)) → Text → List K → ℕ → M World (Found V)
    if_larger ask state_id ids size =
        if ltb size (length ids) then chunked ask state_id ids else at_once state_id ids

    -- The two functions call each other; `depth` bounds how deep, where the stack would overflow.
    pub many : ℕ → Text → List K → M World (Found V)
    unfolding at_once chunked
    many zero state_id ids = λ s w. (panics, s, w)
    many (suc depth) [] ids = fail (codes "no state ID specified")
    many (suc depth) (c ∷ state_id) ids = chunk_size >>= if_larger (many depth) (c ∷ state_id) ids

  module _ (decoders : Decoders) {V : Type 0}
      (decode : Bytes → Result (Option (List (Option (ValidatorIndex × V))))) where
    -- A chunk is not cut again, so two levels are enough.
    unfoldable pub validators : Text → List ValidatorIndex → M World (Found V)
    unfolding many
    validators = many format_uint (index_chunk_size decoders) validator_words decode 2

    unfoldable pub validators_by_pubkey : Text → List BlsPubKey → M World (Found V)
    unfolding many
    validators_by_pubkey = many format_hex (pubkey_chunk_size decoders) validator_words decode 2

    unfoldable pub validator_balances : Text → List ValidatorIndex → M World (Found V)
    unfolding many
    validator_balances = many format_uint (index_chunk_size decoders) balance_words decode 2
