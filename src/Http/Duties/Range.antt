-- ===== src/Http/Duties/Range.antt =====
-- Which proposer duties are returned.
use go_eth2_client.Prelude.{
  ℕ, ◌+◌, ◌*◌, ◌≤◌, ◌<◌, Text, Bytes, Slot, Epoch, ValidatorIndex, codes, Result, ok, returns, true,
  ltb, ◌||◌, Option, none, some, List, [], ◌∷◌, All, member, u64_mod, ◌≡◌, arith, Bool-cases, inl,
  inr,
}
use go_eth2_client.Http.Service.{Service, Server}
use go_eth2_client.Http.Service.Steps.{
  Yields, after-Yields_from, after-Yields_at, Yields-ok, Yields-map, rewrap-ok,
}
use go_eth2_client.Http.Spec.{slots_per_epoch}
use go_eth2_client.Http.Duties.{
  ProposerDuty, start_slot, end_slot, selected, filter_duties, check_slots, checked_duties,
  duties_in, slots_for_duties, requested_duties, proposer_duties,
}

abbrev InRange : Slot → Slot → ProposerDuty → Type 0
InRange from till d = (from ≤ d.slot) × (d.slot ≤ till)

-- A duty that was asked for: all are if no validator is named.
abbrev pub IsNamed : List ValidatorIndex → ProposerDuty → Type 0
IsNamed [] d = Unit {0}
IsNamed (i ∷ indices) d = member d.validator_index (i ∷ indices) ≡ true

All-IsNamed : (ds : List ProposerDuty) → All (IsNamed []) ds
All-IsNamed [] = tt
All-IsNamed (d ∷ ds) = (tt, All-IsNamed ds)

module _ (P : ProposerDuty → Type 0) (i : ValidatorIndex) (indices : List ValidatorIndex) where
  filter_duties-All :
      (ds : List ProposerDuty)
      → All P ds
      → All (λ d. P d × IsNamed (i ∷ indices) d) (filter_duties (i ∷ indices) ds)
  filter_duties-All [] h = tt
  filter_duties-All (d ∷ ds) (p, ps) = elim (Bool-cases (member d.validator_index (i ∷ indices))) [
    | inl hit ↦ rw hit ((p, hit), filter_duties-All ds ps)
    | inr miss ↦ rw miss (filter_duties-All ds ps)
  ]

-- Where the epoch ends within uint64, the range that is checked is that of its slots.
range-epoch :
    (epoch slots : ℕ) (d : ProposerDuty)
    → 1 ≤ slots
    → epoch * slots + slots ≤ u64_mod
    → InRange (start_slot epoch slots) (end_slot epoch slots) d
    → (epoch * slots ≤ d.slot) × (d.slot < epoch * slots + slots)
range-epoch epoch slots d h k (l, r) = (omega arith, omega arith)

abbrev pub IsInEpoch : Epoch → ℕ → ProposerDuty → Type 0
IsInEpoch epoch slots d =
    1 ≤ slots
    → epoch * slots + slots ≤ u64_mod
    → (epoch * slots ≤ d.slot) × (d.slot < epoch * slots + slots)

module _ (server : Server) (spec_data : Bytes → Result (List (Text × Text))) where
  open server use {World}

  module _ (from till : Slot) where
    check_slots-InRange :
        (ds : List (Option ProposerDuty)) (s : Service) (w : World)
        → Yields (All (InRange from till)) (check_slots server spec_data from till ds s w)
    check_slots-InRange [] s w = tt
    check_slots-InRange (none ∷ ds) s w = tt
    check_slots-InRange (some d ∷ ds) s w = elim (Bool-cases (ltb d.slot from || ltb till d.slot)) [
      | inl bad ↦ rw bad tt
      | inr good ↦ rw good (
          after-Yields_from (All (InRange from till)) (All (InRange from till)) _
            (check_slots server spec_data from till ds s w) (check_slots-InRange ds s w)
            (λ rest s w r. ((ground arith, ground arith), r)))
    ]

  -- `n` is what `SlotsPerEpoch` gave when it was asked in the state `s` and the world `w`.
  abbrev pub GivesSlots : Service → World → ℕ → Type 0
  GivesSlots s w n =
      (s' : Service) × (w' : World) × (slots_per_epoch server spec_data s w
        ≡ (returns (ok n), s', w'))

  module _ (epoch : Epoch) (indices : List ValidatorIndex) where
    -- The duties are due where `SlotsPerEpoch` is asked in the given state and world.
    abbrev pub IsDue : Service → World → List ProposerDuty → Type 0
    IsDue s w ds =
        (n : ℕ) × GivesSlots s w n × All (λ d. IsInEpoch epoch n d × IsNamed indices d) ds

    in_epoch :
        (n : ℕ) (ds : List ProposerDuty)
        → All (InRange (start_slot epoch n) (end_slot epoch n)) ds
        → All (IsInEpoch epoch n) ds
    in_epoch n [] r = tt
    in_epoch n (d ∷ ds) (r, rs) = (λ h k. range-epoch epoch n d h k r, in_epoch n ds rs)

    selected-All :
        (is : List ValidatorIndex) (n : ℕ) (ds : List ProposerDuty)
        → All (InRange (start_slot epoch n) (end_slot epoch n)) ds
        → All (λ d. IsInEpoch epoch n d × IsNamed is d) (selected is ds)
    selected-All [] n [] r = tt
    selected-All [] n (d ∷ ds) (r, rs) =
        ((λ h k. range-epoch epoch n d h k r, tt), selected-All [] n ds rs)
    selected-All (i ∷ is) n ds r = filter_duties-All (IsInEpoch epoch n) i is ds (in_epoch n ds r)

    duties_in-IsDue :
        (ds : List (Option ProposerDuty)) (s : Service) (w : World)
        → Yields (IsDue s w) (duties_in server spec_data epoch indices ds s w)
    duties_in-IsDue ds s w =
        after-Yields_at (IsDue s w) (checked_duties server spec_data epoch indices ds)
          (slots_for_duties server spec_data s w)
          (λ n s1 w1 given.
            after-Yields_from (IsDue s w) (All (InRange (start_slot epoch n) (end_slot epoch n))) _
              (check_slots server spec_data (start_slot epoch n) (end_slot epoch n) ds s1 w1)
              (check_slots-InRange (start_slot epoch n) (end_slot epoch n) ds s1 w1)
              (λ ds s2 w2 r. (
                n,
                (s1, w1, rewrap-ok (codes "failed to obtain slots per epoch") _ given),
                selected-All indices n ds r,
              )))

  -- The duties are due where `SlotsPerEpoch` is asked after the request for the duties.
  abbrev pub IsDueFrom :
      (Bytes → Result (List (Option ProposerDuty)))
      → Epoch
      → List ValidatorIndex
      → Service
      → World
      → List ProposerDuty
      → Type 0
  IsDueFrom decode epoch indices s w ds =
      (got : List (Option ProposerDuty)) × (s1 : Service) × (w1 : World) × (requested_duties server
          spec_data decode epoch s w
        ≡ (returns (ok got), s1, w1))
      × IsDue epoch indices s1 w1 ds

  -- Each duty that `ProposerDuties` returns is of a validator that was asked for, or none was
  -- named. Where the number of slots per epoch that `SlotsPerEpoch` gives, in the state and the
  -- world after the request for the duties, is not zero and the slots of the epoch stay within
  -- uint64, the slot of each duty lies in the epoch.
  pub proposer_duties-IsDue :
      (decode : Bytes → Result (List (Option ProposerDuty))) (epoch : Epoch)
      (indices : List ValidatorIndex) (s : Service) (w : World) {ds : List ProposerDuty}
      {s' : Service} {w' : World}
      → proposer_duties server spec_data decode epoch indices s w ≡ (returns (ok ds), s', w')
      → IsDueFrom decode epoch indices s w ds
  unfolding proposer_duties
  proposer_duties-IsDue decode epoch indices s w h =
      Yields-ok (IsDueFrom decode epoch indices s w)
        (proposer_duties server spec_data decode epoch indices s w)
        (after-Yields_at (IsDueFrom decode epoch indices s w)
          (duties_in server spec_data epoch indices)
          (requested_duties server spec_data decode epoch s w)
          (λ got s1 w1 asked.
            Yields-map (IsDue epoch indices s1 w1) (IsDueFrom decode epoch indices s w)
              (duties_in server spec_data epoch indices got s1 w1)
              (λ ds due. (got, s1, w1, asked, due)) (duties_in-IsDue epoch indices got s1 w1)))
        h
