-- ===== src/Http/Chunks/Depth.antt =====
-- A chunk is not cut again: the calls of the two functions that request many validators go two deep.
use go_eth2_client.Prelude.{
  ValidatorIndex, ℕ, suc, ◌≤◌, Text, Bytes, Result, ok, err, Ending, returns, panics, ltb, Option,
  List, [], ◌∷◌, length, All, ◌≡◌, refl, sym, subst, ltb→lt, codes, ◌∙◌, arith, Bool-cases, inl,
  inr,
}
use go_eth2_client.Http.Service.{Service, Server, M, after, rewrap}
use go_eth2_client.Http.Chunks.{
  Found, Words, chunks, put_all, at_once, chunk_loop, chunked, if_larger, many,
}
use go_eth2_client.Http.Chunks.Cover.{chunks-size}

-- What the model goes on with: `size` is the chunk size in a state.
module _ {W : Type 0} (size : Service → ℕ) where
  -- A value comes with a state of the same chunk size.
  abbrev pub KeepsSize : {A : Type 0} → Service → Ending A × Service × W → Type 0
  KeepsSize s (panics, s', w) = Unit {0}
  KeepsSize s (returns (err e), s', w) = Unit {0}
  KeepsSize s (returns (ok a), s', w) = size s' ≡ size s

  -- A chunk size that is asked for is that of the state; no error comes instead.
  abbrev pub GivesSize : Service → Ending ℕ × Service × W → Type 0
  GivesSize s (panics, s', w) = Unit {0}
  GivesSize s (returns (err e), s', w) = 1 ≤ 0
  GivesSize s (returns (ok n), s', w) = (n ≡ size s) × (size s' ≡ size s)

  after_same :
      {A B : Type 0} (s : Service) (f g : B → M W A) (r : Ending B × Service × W)
      → KeepsSize s r
      → ((b : B) (s' : Service) (w : W) → size s' ≡ size s → f b s' w ≡ g b s' w)
      → after f r ≡ after g r
  after_same s f g (panics, s', w) k h = refl
  after_same s f g (returns (err e), s', w) k h = refl
  after_same s f g (returns (ok b), s', w) k h = h b s' w k

  after_same_size :
      {A : Type 0} (s : Service) (f g : ℕ → M W A) (r : Ending ℕ × Service × W)
      → GivesSize s r
      → ((n : ℕ) (s' : Service) (w : W) → n ≡ size s → size s' ≡ size s → f n s' w ≡ g n s' w)
      → after f r ≡ after g r
  after_same_size s f g (panics, s', w) k h = refl
  after_same_size s f g (returns (err e), s', w) k h = refl
  after_same_size s f g (returns (ok n), s', w) (k, l) h = h n s' w k l

  after-KeepsSize :
      {A B : Type 0} (s : Service) (f : B → M W A) (r : Ending B × Service × W)
      → KeepsSize s r
      → ((b : B) (s' : Service) (w : W) → size s' ≡ size s → KeepsSize s (f b s' w))
      → KeepsSize s (after f r)
  after-KeepsSize s f (panics, s', w) k h = tt
  after-KeepsSize s f (returns (err e), s', w) k h = tt
  after-KeepsSize s f (returns (ok b), s', w) k h = h b s' w k

  KeepsSize-from :
      {A : Type 0} (s s' : Service) (r : Ending A × Service × W)
      → size s' ≡ size s
      → KeepsSize s' r
      → KeepsSize s r
  KeepsSize-from s s' (panics, s1, w) e k = tt
  KeepsSize-from s s' (returns (err e'), s1, w) e k = tt
  KeepsSize-from s s' (returns (ok a), s1, w) e k = k ∙ e

  GivesSize-KeepsSize : (s : Service) (r : Ending ℕ × Service × W) → GivesSize s r → KeepsSize s r
  GivesSize-KeepsSize s (panics, s', w) k = tt
  GivesSize-KeepsSize s (returns (err e), s', w) k = tt
  GivesSize-KeepsSize s (returns (ok n), s', w) k = k.1

  rewrap-KeepsSize :
      {A : Type 0} (s : Service) (t : Text) (r : Ending A × Service × W)
      → KeepsSize s r
      → KeepsSize s (rewrap t r)
  rewrap-KeepsSize s t (panics, s', w) k = tt
  rewrap-KeepsSize s t (returns (err e), s', w) k = tt
  rewrap-KeepsSize s t (returns (ok a), s', w) k = k

module _ (server : Server) where
  open server use {World}

  module _ {K V : Type 0} (print : K → Text) (chunk_size : M World ℕ) (words : Words)
      (decode : Bytes → Result (Option (List (Option (ValidatorIndex × V))))) (size : Service → ℕ)
      (some_size : (s : Service) → 1 ≤ size s)
      (gives : (s : Service) (w : World) → GivesSize size s (chunk_size s w))
      (at_once-keeps : (state_id : Text) (ids : List K) (s : Service) (w : World)
        → KeepsSize size s (at_once server print chunk_size words decode state_id ids s w)) where
    abbrev once : Text → List K → M World (Found V)
    once state_id ids s w =
        after (λ n. at_once server print chunk_size words decode state_id ids) (chunk_size s w)

    many_small :
        (depth : ℕ) (c : ℕ) (state_id : Text) (ids : List K) (s : Service) (w : World)
        → length ids ≤ size s
        → many server print chunk_size words decode (suc depth) (c ∷ state_id) ids s w
          ≡ once (c ∷ state_id) ids s w
    unfolding many
    many_small depth c state_id ids s w h =
        after_same_size size s
          (if_larger server print chunk_size words decode
            (many server print chunk_size words decode depth) (c ∷ state_id) ids)
          (λ n. at_once server print chunk_size words decode (c ∷ state_id) ids) (chunk_size s w)
          (gives s w)
          (λ n s' w' e e'. elim (Bool-cases (ltb n (length ids))) [
            | inl more ↦ absurd (let k = ltb→lt n (length ids) more in omega arith)
            | inr fits ↦ rw fits refl
          ])

    once-KeepsSize :
        (state_id : Text) (ids : List K) (s : Service) (w : World)
        → KeepsSize size s (once state_id ids s w)
    once-KeepsSize state_id ids s w =
        after-KeepsSize size s (λ n. at_once server print chunk_size words decode state_id ids)
          (chunk_size s w) (GivesSize-KeepsSize size s (chunk_size s w) (gives s w))
          (λ n s' w' e.
            KeepsSize-from size s s'
              (at_once server print chunk_size words decode state_id ids s' w') e
              (at_once-keeps state_id ids s' w'))

    -- Two ways to ask for a chunk give the same loop, if they agree on chunks that are small.
    chunk_loop_same :
        (depth : ℕ) (c : ℕ) (state_id : Text) (cs : List (List K)) (res : Found V) (s : Service)
        (w : World)
        → All (λ (ids : List K). length ids ≤ size s) cs
        → chunk_loop server print chunk_size words decode
            (many server print chunk_size words decode (suc depth))
            (c ∷ state_id)
            cs
            res
            s
            w
          ≡ chunk_loop server print chunk_size words decode once (c ∷ state_id) cs res s w
    unfolding chunk_loop
    chunk_loop_same depth c state_id [] res s w h = refl
    chunk_loop_same depth c state_id (chunk ∷ cs) res s w (h, hs) =
        rw (many_small depth c state_id chunk s w h) (
          after_same size s _ _
            (rewrap (codes "failed to obtain chunk") (once (c ∷ state_id) chunk s w))
            (rewrap-KeepsSize size s (codes "failed to obtain chunk")
              (once (c ∷ state_id) chunk s w) (once-KeepsSize (c ∷ state_id) chunk s w))
            (λ found s' w' e.
              chunk_loop_same depth c state_id cs (put_all found res) s' w'
                (subst (λ n. All (λ (ids : List K). length ids ≤ n) cs) (sym e) hs)))

    small_chunks :
        (n : ℕ) (cs : List (List K)) (s : Service)
        → n ≡ size s
        → All (λ (c : List K). (1 ≤ length c) × (length c ≤ n)) cs
        → All (λ (c : List K). length c ≤ size s) cs
    small_chunks n [] s e h = tt
    small_chunks n (c ∷ cs) s e ((_, h), hs) = (omega arith, small_chunks n cs s e hs)

    chunked_same :
        (depth : ℕ) (c : ℕ) (state_id : Text) (ids : List K) (s : Service) (w : World)
        → chunked server print chunk_size words decode
            (many server print chunk_size words decode (suc depth))
            (c ∷ state_id)
            ids
            s
            w
          ≡ chunked server print chunk_size words decode once (c ∷ state_id) ids s w
    unfolding chunked
    chunked_same depth c state_id ids s w =
        after_same_size size s _ _ (chunk_size s w) (gives s w) (λ n s' w' e e'.
          let big : 1 ≤ n = (let k = some_size s in omega arith) in
          chunk_loop_same depth c state_id (chunks (length ids) n ids) [] s' w' (
            small_chunks n (chunks (length ids) n ids) s' (e ∙ sym e')
              (chunks-size n big (length ids) ids)))

    pub many_two :
        (depth : ℕ) (state_id : Text) (ids : List K) (s : Service) (w : World)
        → many server print chunk_size words decode (suc (suc depth)) state_id ids s w
          ≡ many server print chunk_size words decode 2 state_id ids s w
    unfolding many
    many_two depth [] ids s w = refl
    many_two depth (c ∷ state_id) ids s w =
        after_same_size size s
          (if_larger server print chunk_size words decode
            (many server print chunk_size words decode (suc depth)) (c ∷ state_id) ids)
          (if_larger server print chunk_size words decode
            (many server print chunk_size words decode 1) (c ∷ state_id) ids)
          (chunk_size s w) (gives s w)
          (λ n s' w' e e'. elim (Bool-cases (ltb n (length ids))) [
            | inr fits ↦ rw fits refl
            | inl more ↦ rw more (
                chunked_same depth c state_id ids s' w' ∙ sym (chunked_same 0 c state_id ids s' w'))
          ])
