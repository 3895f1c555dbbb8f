-- ===== src/Http/Chunks/Lengths.antt =====
-- How long the URL of a chunk of public keys is.
use go_eth2_client.Prelude.{
  ValidatorIndex, ℕ, ◌+◌, ◌*◌, ◌≤◌, Text, Bytes, BlsPubKey, Result, Option, List, [], ◌∷◌, ◌++◌,
  map, length, length-append, All, codes, ◌≡◌, refl, arith,
}
use go_eth2_client.Codec.Hex.{format_hex, hex_digits}
use go_eth2_client.Http.Service.{Server, M}
use go_eth2_client.Http.Chunks.Sizes.{size_for_same}
use go_eth2_client.Http.Chunks.{pubkey_size_for, validator_words, join, query, url}

length-hex_digits : (bs : Bytes) → length (hex_digits bs) ≡ 2 * length bs
length-hex_digits [] = refl
length-hex_digits (b ∷ bs) = omega (arith, length-hex_digits bs)

-- A public key of 48 bytes.
abbrev pub IsPubKey : BlsPubKey → Type 0
IsPubKey k = length k ≡ 48

length-format_hex : (k : BlsPubKey) → IsPubKey k → length (format_hex k) ≡ 98
unfolding format_hex
length-format_hex [] h = omega arith
length-format_hex (b ∷ bs) h = omega (arith, length-hex_digits (b ∷ bs))

length-join :
    (k : BlsPubKey) (ks : List BlsPubKey)
    → All IsPubKey (k ∷ ks)
    → length (join (map format_hex (k ∷ ks))) + 1 ≡ 99 * length (k ∷ ks)
length-join k [] (h, _) = omega (arith, length-format_hex k h)
length-join k (j ∷ ks) (h, hs) = omega (
  arith,
  length-append (format_hex k) (b',' ∷ join (map format_hex (j ∷ ks))),
  length-format_hex k h,
  length-join j ks hs,
)

module _ (server : Server) {V : Type 0} (chunk_size : M server.World ℕ)
    (decode : Bytes → Result (Option (List (Option (ValidatorIndex × V))))) where
  length-query :
      (ks : List BlsPubKey)
      → All IsPubKey ks
      → length (query server format_hex chunk_size validator_words decode ks) ≤ 3 + 99 * length ks
  length-query [] h = omega arith
  length-query (k ∷ ks) h = omega (arith, length-join k ks h)

  -- For public keys of 48 bytes, as many as the chunk size of any node version allows, and a
  -- state identifier of at most 500 bytes, the path and query of the request for validators have
  -- at most 8000 bytes.
  pub length-url :
      (version state_id : Text) (ks : List BlsPubKey)
      → All IsPubKey ks
      → length ks ≤ pubkey_size_for version
      → length state_id ≤ 500
      → length (url server format_hex chunk_size validator_words decode state_id ks) ≤ 8000
  length-url version state_id ks h n m =
      let q = query server format_hex chunk_size validator_words decode ks in
      omega (
        arith,
        length-append ((state_id ++ codes "/") ++ codes "validators") q,
        length-append (state_id ++ codes "/") (codes "validators"),
        length-append state_id (codes "/"),
        length-query ks h,
        size_for_same 75 version,
      )
