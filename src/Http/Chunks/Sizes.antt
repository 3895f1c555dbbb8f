-- ===== src/Http/Chunks/Sizes.antt =====
-- The chunk sizes of a client do not change while it asks for validators.
use go_eth2_client.Prelude.{
  ℕ, zero, suc, ◌≤◌, Text, Bytes, to_lower, Result, ok, err, Ending, returns, panics, Option, none,
  some, List, [], ◌∷◌, ValidatorIndex, ◌≡◌, refl, ◌∙◌, arith,
}
use go_eth2_client.Http.Service.{Service, Server, ℤ, pos, negsuc, M, pure, after, or_wrap, lift}
use go_eth2_client.Http.Static.{Decoders, node_version}
use go_eth2_client.Http.Chunks.{
  Words, url, at_once, entries_of, put_all, indexed, unless_error, sized, size_for,
}
use go_eth2_client.Http.Service.Frames.{IsSame, after-IsSame, rewrap-IsSame, request-IsSame}
use go_eth2_client.Http.Static.Frames.{version_or-IsSame}
use go_eth2_client.Http.Chunks.Depth.{KeepsSize, GivesSize}

-- The size that the user set, if it is a positive one.
abbrev pub user_size : ℕ → ℤ → ℕ
user_size default (pos (suc n)) = suc n
user_size default (pos zero) = default
user_size default (negsuc n) = default

pub user_size-some : (default : ℕ) (z : ℤ) → 1 ≤ default → 1 ≤ user_size default z
user_size-some default (pos (suc n)) h = omega arith
user_size-some default (pos zero) h = h
user_size-some default (negsuc n) h = h

pub size_for_same : (n : ℕ) (version : Text) → size_for n n n n n version ≡ n
size_for_same n version = ground arith

module _ {W : Type 0} (size : Service → ℕ) where
  pub IsSame-KeepsSize :
      {A : Type 0} (s : Service) (r : Ending A × Service × W) → IsSame size s r → KeepsSize size s r
  IsSame-KeepsSize s (panics, s', w) k = tt
  IsSame-KeepsSize s (returns (err e), s', w) k = tt
  IsSame-KeepsSize s (returns (ok a), s', w) k = k

module _ (server : Server) (size : Service → ℕ) where
  open server use {World}

  module _ {K V : Type 0} (print : K → Text) (chunk_size : M World ℕ) (words : Words)
      (decode : Bytes → Result (Option (List (Option (ValidatorIndex × V))))) where
    open words use {endpoint, failed, missing, unparsed, nothing}

    entries_of-IsSame :
        (kvs : List (Option (ValidatorIndex × V))) (s : Service) (w : World)
        → IsSame size s (entries_of server print chunk_size words decode kvs s w)
    entries_of-IsSame [] s w = refl
    entries_of-IsSame (none ∷ kvs) s w = refl
    entries_of-IsSame (some kv ∷ kvs) s w =
        after-IsSame size s (λ rest. pure (kv ∷ rest))
          (entries_of server print chunk_size words decode kvs s w) (entries_of-IsSame kvs s w)
          (λ rest s1 w1 e. e)

    indexed-IsSame :
        (o : Option (List (Option (ValidatorIndex × V)))) (s : Service) (w : World)
        → IsSame size s (indexed server print chunk_size words decode o s w)
    indexed-IsSame none s w = refl
    indexed-IsSame (some kvs) s w =
        after-IsSame size s (λ found. pure (put_all found []))
          (entries_of server print chunk_size words decode kvs s w) (entries_of-IsSame kvs s w)
          (λ found s1 w1 e. e)

    pub at_once-IsSame :
        (state_id : Text) (ids : List K) (s : Service) (w : World)
        → IsSame size s (at_once server print chunk_size words decode state_id ids s w)
    unfolding at_once
    at_once-IsSame state_id ids s w =
        after-IsSame size s _ _
          (request-IsSame server size (url server print chunk_size words decode state_id ids) failed
            missing s w)
          (λ body s' w' e.
            after-IsSame size s' (indexed server print chunk_size words decode)
              (or_wrap unparsed (lift (decode body)) s' w')
              (rewrap-IsSame size s' unparsed (lift (decode body) s' w') refl)
              (λ o s1 w1 e1. indexed-IsSame o s1 w1 ∙ e1)
            ∙ e)

-- A chunk size that does not look at the version of the node.
module _ (server : Server) (decoders : Decoders) (size : Service → ℕ)
    (blind : (s : Service) (v : Text) → size (record s { node_version = v }) ≡ size s) where
  open server use {World}

  unless_error-GivesSize :
      (size_of : Text → ℕ) (n : ℕ) (s : Service) (r : Ending Text × Service × World)
      → ((v : Text) → size_of v ≡ n)
      → n ≡ size s
      → IsSame size s r
      → GivesSize size s (after (λ v. pure (size_of (to_lower v))) (unless_error server r))
  unless_error-GivesSize size_of n s (panics, s', w) h e k = tt
  unless_error-GivesSize size_of n s (returns (err e'), s', w) h e k = (h (to_lower []) ∙ e, k)
  unless_error-GivesSize size_of n s (returns (ok v), s', w) h e k = (h (to_lower v) ∙ e, k)

  pub sized-GivesSize :
      (size_of : Text → ℕ) (default : ℕ) (z : ℤ) (s : Service) (w : World)
      → ((v : Text) → size_of v ≡ default)
      → user_size default z ≡ size s
      → GivesSize size s (sized server decoders size_of z s w)
  unfolding node_version
  sized-GivesSize size_of default (pos (suc n)) s w h e = (e, refl)
  sized-GivesSize size_of default (pos zero) s w h e =
      unless_error-GivesSize size_of default s _ h e
        (version_or-IsSame server decoders size blind s.node_version s w)
  sized-GivesSize size_of default (negsuc n) s w h e =
      unless_error-GivesSize size_of default s _ h e
        (version_or-IsSame server decoders size blind s.node_version s w)
