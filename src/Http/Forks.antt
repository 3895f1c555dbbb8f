-- ===== src/Http/Forks.antt =====
-- http/domain.go: the fork at an epoch, and signature domains. `root` is `HashTreeRoot` of the fork
-- data, on a version and a genesis root.
pub mod Schedule
use go_eth2_client.Prelude.{
  Ending, returns, panics, ℕ, Text, Bytes, Root, Version, DomainType, Domain, Epoch, codes, Error,
  Result, ok, err, Bool, true, false, not, ltb, ◌==◌, Option, none, some, List, [], ◌∷◌, ◌++◌,
  if◌then◌else◌, text_eq, take, replicate, length,
}
use go_eth2_client.Http.Service.{
  Service, Server, Genesis, Fork, M, pure, fail, crash, lift, lift_ending, or_wrap, after, ◌>>=◌,
}
use go_eth2_client.Http.Static.{Decoders, genesis, fork_schedule}

-- The loop of `forkAtEpoch`.
abbrev scan_forks : Epoch → Fork → List (Option Fork) → Ending Fork
scan_forks epoch current [] = returns (ok current)
scan_forks epoch current (none ∷ fs) = panics
scan_forks epoch current (some f ∷ fs) =
    if ltb epoch f.epoch then returns (ok current) else scan_forks epoch f fs

-- The end of `forkAtEpoch`, on the schedule; the pointers in it are followed.
unfoldable pub fork_in : Epoch → List (Option Fork) → Ending Fork
fork_in epoch [] = returns (err (codes "no fork schedule returned"))
fork_in epoch (none ∷ fs) = panics
fork_in epoch (some f ∷ fs) = scan_forks epoch f (some f ∷ fs)

abbrev schedule_list : Option (List (Option Fork)) → List (Option Fork)
schedule_list none = []
schedule_list (some fs) = fs

-- The version that `Domain` uses.
unfoldable pub version_at : Epoch → Fork → Version
version_at epoch f = if ltb epoch f.epoch then f.previous_version else f.current_version

-- An array of 32 bytes from the domain type and the start of the root.
unfoldable pub domain_of : DomainType → Root → Domain
domain_of domain_type root = take 32 (domain_type ++ root)

abbrev application_domain : DomainType
application_domain = 0 ∷ 0 ∷ 0 ∷ 1 ∷ []

module _ (server : Server) (decoders : Decoders)
    (hash_fork_data : Version → Root → Result Root) where
  open server use {World}

  unfoldable pub fork_at_epoch : Epoch → M World Fork
  unfolding fork_in
  fork_at_epoch epoch = do
    fs ← or_wrap (codes "failed to obtain fork schedule") (fork_schedule server decoders)
    lift_ending (fork_in epoch (schedule_list fs))

  abbrev zero_root : Root
  zero_root = replicate 32 0

  abbrev root_of : Option Genesis → M World Root
  root_of none = crash
  root_of (some g) = pure g.genesis_validators_root

  -- The root of the fork data is that of the genesis but for application domains.
  abbrev genesis_root : DomainType → M World Root
  genesis_root domain_type =
      if text_eq domain_type application_domain
      then pure zero_root
      else or_wrap (codes "failed to obtain genesis") (genesis server decoders) >>= root_of

  unfoldable pub domain : DomainType → Epoch → M World Domain
  unfolding fork_at_epoch version_at domain_of
  domain domain_type epoch = do
    f ← or_wrap (codes "failed to obtain fork") (fork_at_epoch epoch)
    g ← genesis_root domain_type
    root ←
        or_wrap (codes "failed to calculate signature domain")
          (lift (hash_fork_data (version_at epoch f) g))
    pure (domain_of domain_type root)
