-- ===== src/Http/Tests.antt =====
-- Schedules and chunks at concrete inputs.
use mathlib.Core.List.{flatten}
use go_eth2_client.Prelude.{
  ℕ, ◌≤◌, List, [], ◌∷◌, some, none, map, returns, panics, ok, length, All, ◌≡◌, refl, arith,
}
use go_eth2_client.Http.Service.{Fork}
use go_eth2_client.Http.Forks.{fork_in}
use go_eth2_client.Http.Forks.Schedule.{IsLatest, fork_in-IsLatest}
use go_eth2_client.Http.Chunks.{chunks}
use go_eth2_client.Http.Chunks.Cover.{chunks_cover}

abbrev fork_of : ℕ → ℕ → Fork
fork_of n epoch = record {
  previous_version = n ∷ 0 ∷ 0 ∷ 0 ∷ [];
  current_version = n ∷ 0 ∷ 0 ∷ 0 ∷ [];
  epoch = epoch;
}

abbrev schedule : List Fork
schedule = fork_of 1 0 ∷ fork_of 2 8 ∷ fork_of 3 16 ∷ []

at_ten : fork_in 10 (map some schedule) ≡ returns (ok (fork_of 2 8))
unfolding fork_in
at_ten = refl

-- A nil entry is followed, if it is reached.
nil_fork : fork_in 10 (some (fork_of 1 0) ∷ none ∷ []) ≡ panics
unfolding fork_in
nil_fork = refl

fork_in-IsLatest_example :
    (g : Fork) × (fork_in 10 (map some schedule) ≡ returns (ok g)) × IsLatest 10 schedule g
fork_in-IsLatest_example =
    fork_in-IsLatest 10 (fork_of 1 0) (fork_of 2 8 ∷ fork_of 3 16 ∷ [])
      ((omega arith, (omega arith, tt)), ((omega arith, tt), (tt, tt))) (omega arith)

abbrev five : List ℕ
five = 1 ∷ 2 ∷ 3 ∷ 4 ∷ 5 ∷ []

chunks_cover_example :
    (flatten (chunks 5 2 five) ≡ five)
    × All (λ (c : List ℕ). (1 ≤ length c) × (length c ≤ 2)) (chunks 5 2 five)
chunks_cover_example = chunks_cover 2 (omega arith) five
