-- ===== src/Http/New/Fetched.antt =====
-- What `fetchStaticValues` leaves of the client, and what it has fetched.
use go_eth2_client.Prelude.{
  Text, Bytes, codes, Result, ok, err, Ending, returns, panics, Option, none, some, List, ◌≡◌, ◌≢◌,
  refl, ◌∙◌, arith,
}
use go_eth2_client.Http.Service.{
  Service, Server, SpecMap, DepositContract, Fork, ℤ, M, after, rewrap, or_wrap,
}
use go_eth2_client.Http.Service.Frames.{IsSame, after-IsSame, rewrap-IsSame}
use go_eth2_client.Http.Static.{Decoders, genesis, deposit_contract, fork_schedule, node_version}
use go_eth2_client.Http.Static.Frames.{
  genesis-IsSame, deposit_contract-IsSame, fork_schedule-IsSame, node_version-IsSame,
}
use go_eth2_client.Http.Spec.{spec}
use go_eth2_client.Http.Spec.Kept.{Keeps, spec-Keeps, spec-IsSame}
use go_eth2_client.Http.New.{
  fetch_version, fetch_forks, fetch_contract, fetch_spec_first, fetch_static_values,
}

-- What the user set.
abbrev pub settings : Service → Text × Text × ℤ × ℤ
settings s = (s.base, s.address, s.user_index_chunk_size, s.user_pubkey_chunk_size)

-- A fetch that succeeded leaves a client with a specification.
abbrev pub HasSpec : {W A : Type 0} → Ending A × Service × W → Type 0
HasSpec (panics, s, w) = Unit {0}
HasSpec (returns (err e), s, w) = Unit {0}
HasSpec (returns (ok a), s, w) = s.spec ≢ none

module _ (server : Server) (decoders : Decoders)
    (spec_data : Bytes → Result (List (Text × Text))) where
  open server use {World}

  -- A view that shows none of the values that are fetched last.
  abbrev IsBlind : {X : Type 0} → (Service → X) → Type 0
  IsBlind view =
      ((s : Service) (d : Option DepositContract)
        → view (record s { deposit_contract = d }) ≡ view s)
      × ((s : Service) (fs : Option (List (Option Fork)))
          → view (record s { fork_schedule = fs }) ≡ view s)
      × ((s : Service) (v : Text) → view (record s { node_version = v }) ≡ view s)

  module _ {X : Type 0} (view : Service → X) (blind : IsBlind view) where
    fetch_version-IsSame :
        (s : Service) (w : World) → IsSame view s (fetch_version server decoders spec_data s w)
    fetch_version-IsSame s w =
        after-IsSame view s _
          (or_wrap (codes "failed to fetch node version") (node_version server decoders) s w)
          (rewrap-IsSame view s (codes "failed to fetch node version")
            (node_version server decoders s w)
            (node_version-IsSame server decoders view blind.2 s w))
          (λ v s' w' e. e)

    fetch_forks-IsSame :
        (s : Service) (w : World) → IsSame view s (fetch_forks server decoders spec_data s w)
    fetch_forks-IsSame s w =
        after-IsSame view s _
          (or_wrap (codes "failed to fetch fork schedule") (fork_schedule server decoders) s w)
          (rewrap-IsSame view s (codes "failed to fetch fork schedule")
            (fork_schedule server decoders s w)
            (fork_schedule-IsSame server decoders view blind.1 s w))
          (λ fs s' w' e. fetch_version-IsSame s' w' ∙ e)

    fetch_contract-IsSame :
        (s : Service) (w : World) → IsSame view s (fetch_contract server decoders spec_data s w)
    fetch_contract-IsSame s w =
        after-IsSame view s _
          (or_wrap (codes "failed to fetch deposit contract") (deposit_contract server decoders) s
            w)
          (rewrap-IsSame view s (codes "failed to fetch deposit contract")
            (deposit_contract server decoders s w)
            (deposit_contract-IsSame server decoders view blind.0 s w))
          (λ d s' w' e. fetch_forks-IsSame s' w' ∙ e)

  settings-IsBlind : IsBlind settings
  settings-IsBlind = (λ s d. refl, λ s fs. refl, λ s v. refl)

  fetch_spec_first-IsSame :
      (s : Service) (w : World) → IsSame settings s (fetch_spec_first server decoders spec_data s w)
  fetch_spec_first-IsSame s w =
      after-IsSame settings s _ (or_wrap (codes "failed to fetch spec") (spec server spec_data) s w)
        (rewrap-IsSame settings s (codes "failed to fetch spec") (spec server spec_data s w)
          (spec-IsSame server spec_data settings (λ s o. refl) s w))
        (λ m s' w' e. fetch_contract-IsSame settings settings-IsBlind s' w' ∙ e)

  pub fetch_static_values-IsSame :
      (s : Service) (w : World)
      → IsSame settings s (fetch_static_values server decoders spec_data s w)
  unfolding fetch_static_values
  fetch_static_values-IsSame s w =
      after-IsSame settings s _
        (or_wrap (codes "failed to fetch genesis") (genesis server decoders) s w)
        (rewrap-IsSame settings s (codes "failed to fetch genesis") (genesis server decoders s w)
          (genesis-IsSame server decoders settings (λ s g. refl) s w))
        (λ g s' w' e. fetch_spec_first-IsSame s' w' ∙ e)

  after-HasSpec :
      {A B : Type 0} (f : B → M World A) (r : Ending B × Service × World)
      → ((b : B) (s : Service) (w : World) → HasSpec (f b s w))
      → HasSpec (after f r)
  after-HasSpec f (panics, s, w) h = tt
  after-HasSpec f (returns (err e), s, w) h = tt
  after-HasSpec f (returns (ok b), s, w) h = h b s w

  after_spec-HasSpec :
      {A : Type 0} (t : Text) (f : SpecMap → M World A) (r : Ending SpecMap × Service × World)
      → Keeps r
      → ((m : SpecMap) (s : Service) (w : World) → s.spec ≡ some m → HasSpec (f m s w))
      → HasSpec (after f (rewrap t r))
  after_spec-HasSpec t f (panics, s, w) k h = tt
  after_spec-HasSpec t f (returns (err e), s, w) k h = tt
  after_spec-HasSpec t f (returns (ok m), s, w) k h = h m s w k

  same-HasSpec :
      {A : Type 0} (m : SpecMap) (s : Service) (r : Ending A × Service × World)
      → s.spec ≡ some m
      → IsSame (λ s. s.spec) s r
      → HasSpec r
  same-HasSpec m s (panics, s', w) k e = tt
  same-HasSpec m s (returns (err e'), s', w) k e = tt
  same-HasSpec m s (returns (ok a), s', w) k e = λ none'. ground arith

  pub fetch_static_values-HasSpec :
      (s : Service) (w : World) → HasSpec (fetch_static_values server decoders spec_data s w)
  unfolding fetch_static_values
  fetch_static_values-HasSpec s w =
      after-HasSpec _ (or_wrap (codes "failed to fetch genesis") (genesis server decoders) s w)
        (λ g s w.
          after_spec-HasSpec (codes "failed to fetch spec")
            (λ m. fetch_contract server decoders spec_data) (spec server spec_data s w)
            (spec-Keeps server spec_data s w)
            (λ m s w k.
              same-HasSpec m s (fetch_contract server decoders spec_data s w) k
                (fetch_contract-IsSame (λ s. s.spec) (λ s d. refl, λ s fs. refl, λ s v. refl) s w)))
