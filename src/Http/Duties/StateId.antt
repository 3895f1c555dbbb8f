-- ===== src/Http/Duties/StateId.antt =====
-- Slots as state identifiers.
use go_eth2_client.Prelude.{
  ℕ, suc, ◌<◌, ◌/◌, Text, Bytes, codes, Result, ok, returns, true, false, Option, some, List, [],
  ◌∷◌, All, text_eq, has_prefix, u64_mod, ◌≡◌, ◌≢◌, refl, ap, ◌∙◌, arith,
}
use go_eth2_client.Codec.Decimal.{format_uint, parse_uint, is_digit}
use go_eth2_client.Codec.Decimal.RoundTrip.{parse_uint-format_uint, format_uint-All}
use go_eth2_client.Http.Service.{Service, Server, or_wrap, lift, after, integer, SpecMap}
use go_eth2_client.Http.Spec.{slots_per_epoch, spec, find_value}
use go_eth2_client.Http.Queries.{Finality}
use go_eth2_client.Http.Duties.{
  slot_from_state_id, epoch_from_state_id, bad_state_id, epoch_of_slot,
}

-- A text of digits is none of the words, and does not start like a root.
abbrev IsPlain : Text → Type 0
IsPlain s =
    (text_eq s (codes "genesis") ≡ false)
    × (text_eq s (codes "justified") ≡ false)
    × (text_eq s (codes "finalized") ≡ false)
    × (text_eq s (codes "head") ≡ false)
    × (has_prefix (codes "0x") s ≡ false)

digits-IsPlain : (s : Text) → s ≢ [] → All (λ c. is_digit c ≡ true) s → IsPlain s
digits-IsPlain [] h k = absurd (h refl)
digits-IsPlain (c ∷ []) h (k, _) =
    (ground arith, ground arith, ground arith, ground arith, ground arith)
digits-IsPlain (c ∷ d ∷ s) h (k, (k', _)) =
    (ground arith, ground arith, ground arith, ground arith, ground arith)

module _ (server : Server) (spec_data : Bytes → Result (List (Text × Text))) where
  open server use {World}

  slot_from_state_id-plain :
      (t : Text) (s : Service) (w : World)
      → IsPlain t
      → slot_from_state_id server spec_data t s w
        ≡ or_wrap (bad_state_id server spec_data t) (lift (parse_uint t)) s w
  unfolding slot_from_state_id
  slot_from_state_id-plain t s w (a, b, c, d, e) = rw (a, b, c, d, e) refl

  epoch_from_state_id-plain :
      (finality_data : Bytes → Result (Option Finality)) (t : Text) (s : Service) (w : World)
      → IsPlain t
      → epoch_from_state_id server spec_data finality_data t s w
        ≡ after
            (epoch_of_slot server spec_data)
            (or_wrap (bad_state_id server spec_data t) (lift (parse_uint t)) s w)
  unfolding epoch_from_state_id
  epoch_from_state_id-plain finality_data t s w (a, b, c, d, e) = rw (a, b, c, d, e) refl

  printed :
      (n : ℕ) (t : Text) (s : Service) (w : World)
      → n < u64_mod
      → or_wrap t (lift (parse_uint (format_uint n))) s w ≡ (returns (ok n), s, w)
  printed n t s w h = rw (parse_uint-format_uint n h) refl

  format_uint-IsPlain : (n : ℕ) → IsPlain (format_uint n)
  format_uint-IsPlain n = digits-IsPlain (format_uint n) (format_uint-All n).0 (format_uint-All n).1

  -- A slot within uint64 that is printed in decimal as a state identifier is what
  -- `SlotFromStateID` reads from it.
  pub slot_from_state_id-format_uint :
      (n : ℕ) (s : Service) (w : World)
      → n < u64_mod
      → slot_from_state_id server spec_data (format_uint n) s w ≡ (returns (ok n), s, w)
  slot_from_state_id-format_uint n s w h =
      slot_from_state_id-plain (format_uint n) s w (format_uint-IsPlain n)
      ∙ printed n (bad_state_id server spec_data (format_uint n)) s w h

  divided_by :
      (n k : ℕ) (m : SpecMap) (s : Service) (w : World)
      → s.spec ≡ some m
      → find_value (codes "SLOTS_PER_EPOCH") m ≡ some (integer (suc k))
      → epoch_of_slot server spec_data n s w ≡ (returns (ok (n / suc k)), s, w)
  unfolding slots_per_epoch spec
  divided_by n k m s w e f = rw (e, f) refl

  -- For a state identifier that is a slot within uint64 in decimal, where the kept specification
  -- has a number of slots per epoch that is not zero, `EpochFromStateID` returns the slot divided
  -- by it, asks the node nothing and changes nothing.
  pub epoch_from_state_id-format_uint :
      (finality_data : Bytes → Result (Option Finality)) (n k : ℕ) (m : SpecMap) (s : Service)
      (w : World)
      → n < u64_mod
      → s.spec ≡ some m
      → find_value (codes "SLOTS_PER_EPOCH") m ≡ some (integer (suc k))
      → epoch_from_state_id server spec_data finality_data (format_uint n) s w
        ≡ (returns (ok (n / suc k)), s, w)
  epoch_from_state_id-format_uint finality_data n k m s w h e f =
      epoch_from_state_id-plain finality_data (format_uint n) s w (format_uint-IsPlain n)
      ∙ ap (after (epoch_of_slot server spec_data))
          (printed n (bad_state_id server spec_data (format_uint n)) s w h)
      ∙ divided_by n k m s w e f

  -- For a state identifier that is a slot within uint64 in decimal, where the kept specification
  -- has a number of slots per epoch that is not zero, `SlotFromStateID` returns the slot and
  -- `EpochFromStateID` the slot divided by that number; both ask the node nothing and change
  -- nothing.
  pub state_id-format_uint :
      (finality_data : Bytes → Result (Option Finality)) (n k : ℕ) (m : SpecMap) (s : Service)
      (w : World)
      → n < u64_mod
      → s.spec ≡ some m
      → find_value (codes "SLOTS_PER_EPOCH") m ≡ some (integer (suc k))
      → (slot_from_state_id server spec_data (format_uint n) s w ≡ (returns (ok n), s, w))
        × (epoch_from_state_id server spec_data finality_data (format_uint n) s w
            ≡ (returns (ok (n / suc k)), s, w))
  state_id-format_uint finality_data n k m s w h e f = (
    slot_from_state_id-format_uint n s w h,
    epoch_from_state_id-format_uint finality_data n k m s w h e f,
  )
