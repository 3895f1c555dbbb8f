-- ===== src/Http/Chunks/Calls.antt =====
-- How deep the requests for many validators call themselves.
use go_eth2_client.Prelude.{
  ℕ, suc, Text, Bytes, ValidatorIndex, BlsPubKey, Result, Option, List, ◌≡◌, refl, arith,
}
use go_eth2_client.Codec.Decimal.{format_uint}
use go_eth2_client.Codec.Hex.{format_hex}
use go_eth2_client.Http.Service.{Service, Server}
use go_eth2_client.Http.Static.{Decoders}
use go_eth2_client.Http.Chunks.{
  Words, many, index_size_for, pubkey_size_for, index_chunk_size, pubkey_chunk_size,
  validator_words, balance_words, validators, validators_by_pubkey, validator_balances,
}
use go_eth2_client.Http.Chunks.Depth.{many_two}
use go_eth2_client.Http.Chunks.Sizes.{
  user_size, user_size-some, size_for_same, at_once-IsSame, IsSame-KeepsSize, sized-GivesSize,
}

-- Neither size looks at the version of the node that the client keeps.
abbrev index_size : Service → ℕ
index_size s = user_size 1000 s.user_index_chunk_size

abbrev pubkey_size : Service → ℕ
pubkey_size s = user_size 75 s.user_pubkey_chunk_size

module _ (server : Server) (decoders : Decoders) where
  open server use {World}

  by_index :
      {V : Type 0} (words : Words)
      (decode : Bytes → Result (Option (List (Option (ValidatorIndex × V))))) (depth : ℕ)
      (state_id : Text) (indices : List ValidatorIndex) (s : Service) (w : World)
      → many server format_uint
          (index_chunk_size server decoders)
          words
          decode
          (suc (suc depth))
          state_id
          indices
          s
          w
        ≡ many server format_uint
            (index_chunk_size server decoders)
            words
            decode
            2
            state_id
            indices
            s
            w
  unfolding index_chunk_size
  by_index words decode depth state_id indices s w =
      many_two server format_uint (index_chunk_size server decoders) words decode index_size
        (λ s. user_size-some 1000 s.user_index_chunk_size (omega arith))
        (λ s w.
          sized-GivesSize server decoders index_size (λ s v. refl) index_size_for 1000
            s.user_index_chunk_size s w (λ v. size_for_same 1000 v) refl)
        (λ state_id ids s w. IsSame-KeepsSize index_size s _ (
          at_once-IsSame server index_size format_uint (index_chunk_size server decoders) words
            decode state_id ids s w))
        depth state_id indices s w

  by_pubkey :
      {V : Type 0} (words : Words)
      (decode : Bytes → Result (Option (List (Option (ValidatorIndex × V))))) (depth : ℕ)
      (state_id : Text) (pubkeys : List BlsPubKey) (s : Service) (w : World)
      → many server format_hex
          (pubkey_chunk_size server decoders)
          words
          decode
          (suc (suc depth))
          state_id
          pubkeys
          s
          w
        ≡ many server format_hex
            (pubkey_chunk_size server decoders)
            words
            decode
            2
            state_id
            pubkeys
            s
            w
  unfolding pubkey_chunk_size
  by_pubkey words decode depth state_id pubkeys s w =
      many_two server format_hex (pubkey_chunk_size server decoders) words decode pubkey_size
        (λ s. user_size-some 75 s.user_pubkey_chunk_size (omega arith))
        (λ s w.
          sized-GivesSize server decoders pubkey_size (λ s v. refl) pubkey_size_for 75
            s.user_pubkey_chunk_size s w (λ v. size_for_same 75 v) refl)
        (λ state_id ids s w. IsSame-KeepsSize pubkey_size s _ (
          at_once-IsSame server pubkey_size format_hex (pubkey_chunk_size server decoders) words
            decode state_id ids s w))
        depth state_id pubkeys s w

  -- `Validators`, `ValidatorsByPubKey` and `ValidatorBalances` call themselves for chunks at most
  -- two deep: with leave to go any deeper they do the same, on every list, client, node and
  -- world. So the bound on the depth in the model is never met.
  pub validators-deep :
      {V : Type 0} (decode : Bytes → Result (Option (List (Option (ValidatorIndex × V)))))
      (depth : ℕ) (state_id : Text) (indices : List ValidatorIndex) (pubkeys : List BlsPubKey)
      (s : Service) (w : World)
      → (many server format_uint
            (index_chunk_size server decoders)
            validator_words
            decode
            (suc (suc depth))
            state_id
            indices
            s
            w
          ≡ validators server decoders decode state_id indices s w)
        × (many server format_hex
              (pubkey_chunk_size server decoders)
              validator_words
              decode
              (suc (suc depth))
              state_id
              pubkeys
              s
              w
            ≡ validators_by_pubkey server decoders decode state_id pubkeys s w)
        × (many server format_uint
              (index_chunk_size server decoders)
              balance_words
              decode
              (suc (suc depth))
              state_id
              indices
              s
              w
            ≡ validator_balances server decoders decode state_id indices s w)
  unfolding validators validators_by_pubkey validator_balances
  validators-deep decode depth state_id indices pubkeys s w = (
    by_index validator_words decode depth state_id indices s w,
    by_pubkey validator_words decode depth state_id pubkeys s w,
    by_index balance_words decode depth state_id indices s w,
  )
