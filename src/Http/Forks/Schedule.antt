-- ===== src/Http/Forks/Schedule.antt =====
-- The fork that is found in a schedule.
use go_eth2_client.Prelude.{
  ◌≤◌, ◌<◌, Epoch, ltb, ltb→lt, some, Option, map, returns, ok, false, List, [], ◌∷◌, ◌++◌, ◌≡◌,
  inl, inr, refl, ap, arith, Bool-cases, All,
}
use go_eth2_client.Http.Service.{Fork}
use go_eth2_client.Http.Forks.{fork_in, scan_forks}

-- The epochs of a schedule never fall.
abbrev pub IsOrdered : List Fork → Type 0
IsOrdered [] = Unit {0}
IsOrdered (f ∷ fs) = All (λ (g : Fork). f.epoch ≤ g.epoch) fs × IsOrdered fs

-- `f` is the last fork of the schedule that has begun.
abbrev pub IsLatest : Epoch → List Fork → Fork → Type 0
IsLatest epoch fs f =
    (before : List Fork) × (after : List Fork) × (fs ≡ before ++ f ∷ after)
    × (f.epoch ≤ epoch)
    × All (λ (g : Fork). epoch < g.epoch) after

All-later :
    (epoch : Epoch) (f : Fork) (fs : List Fork)
    → epoch < f.epoch
    → All (λ (g : Fork). f.epoch ≤ g.epoch) fs
    → All (λ (g : Fork). epoch < g.epoch) fs
All-later epoch f [] h k = tt
All-later epoch f (g ∷ fs) h (k, ks) = (omega arith, All-later epoch f fs h ks)

scan_forks-IsLatest :
    (epoch : Epoch) (current : Fork) (fs : List Fork)
    → current.epoch ≤ epoch
    → IsOrdered fs
    → (g : Fork) × (scan_forks epoch current (map some fs) ≡ returns (ok g))
      × IsLatest epoch (current ∷ fs) g
scan_forks-IsLatest epoch current [] h o = (current, refl, ([], [], refl, h, tt))
scan_forks-IsLatest epoch current (f ∷ fs) h (o, os) = elim (Bool-cases (ltb epoch f.epoch)) [
  | inl later ↦
      let k = ltb→lt epoch f.epoch later in
      (current, rw (later, scan_forks) refl, ([], f ∷ fs, refl, h, (k, All-later epoch f fs k o)))
  | inr begun ↦
      let (g, p, (before, after, e, l, r)) = scan_forks-IsLatest epoch f fs (ground arith) os in
      (g, rw (begun, scan_forks) p, (current ∷ before, after, ap (◌∷◌ current) e, l, r))
]

-- In a schedule that has no nil pointer, whose epochs never fall and whose first fork has begun,
-- the fork that is found for an epoch is the last fork of the schedule that has begun at the
-- epoch: all forks after it begin later.
pub fork_in-IsLatest :
    (epoch : Epoch) (f : Fork) (fs : List Fork)
    → IsOrdered (f ∷ fs)
    → f.epoch ≤ epoch
    → (g : Fork) × (fork_in epoch (map some (f ∷ fs)) ≡ returns (ok g)) × IsLatest epoch (f ∷ fs) g
unfolding fork_in
fork_in-IsLatest epoch f fs (o, os) h =
    let (g, p, l) = scan_forks-IsLatest epoch f fs h os in
    let begun : ltb epoch f.epoch ≡ false = ground arith in (g, rw (begun, scan_forks) p, l)

-- Before the first fork begins, the first fork is found all the same.
pub fork_in_early :
    (epoch : Epoch) (f : Fork) (fs : List (Option Fork))
    → epoch < f.epoch
    → fork_in epoch (some f ∷ fs) ≡ returns (ok f)
unfolding fork_in
fork_in_early epoch f fs h = ground arith
