-- ===== src/Clients/Stacks.antt =====
-- What a call does that passes through wrappers, one over another, in any number and any order.
use go_eth2_client.Prelude.{
  ℕ, ◌+◌, ◌-◌, ◌*◌, ◌/◌, ◌≤◌, ◌<◌, codes, ok, err, panics, ltb, Ending, returns, true, false,
  Bool-cases, List, [], ◌∷◌, All, some, ◌⊎◌, inl, inr, ◌≡◌, refl, sym, ◌∙◌, ◌==◌, arith,
}
use go_eth2_client.Clients.Methods.{Method, interface_of}
use go_eth2_client.Clients.Client.{Values, Client, Args, Returns}
use go_eth2_client.Clients.Erroring.{Random, erroring_implements, erroring_client, erroring_call}
use go_eth2_client.Clients.Sleepy.{
  Clock, Sleepy, millisecond, sleepy_implements, sleepy_client, sleepy_call, spread, slept,
  new_sleepy,
}

not_zero : (n : ℕ) → 0 < n → (n == 0) ≡ false
not_zero n h = ground arith

not_ltb : (m n : ℕ) → m ≤ n → ltb n m ≡ false
not_ltb m n h = ground arith

zero_spread : (m n : ℕ) → m ≡ n → (n - m == 0) ≡ true
zero_spread m n e = ground arith

true_not_false : true ≡ false → ⊥
true_not_false e = cc

-- A nap of `low` to `high` milliseconds.
nap_bounds :
    (low high r : ℕ)
    → low < high
    → r < high - low
    → (low * millisecond ≤ (low + r) * millisecond) × ((low + r) * millisecond ≤ high * millisecond)
nap_bounds low high r h k = (omega arith, omega arith)

-- A wrapper, by what it was made from.
pub data Layer (random : Random) : Type 0 where
  erring : random.Rate → Layer random
  sleeping : ℕ → ℕ → Layer random

module _ (v : Values) (random : Random) (clock : Clock random.World) where
  open random use {World, Rate, below, float64, seed}
  open clock use {int63n, time_sleep}

  abbrev pub wrapped_by : Layer random → Client v World → Client v World
  wrapped_by (erring rate) next =
      erroring_client v random (record { error_rate = rate; next = next })
  wrapped_by (sleeping low high) next =
      sleepy_client v random clock (record { min_sleep = low; max_sleep = high; next = next })

  -- The first wrapper is the outermost one.
  abbrev pub stack : List (Layer random) → Client v World → Client v World
  stack [] next = next
  stack (l ∷ ls) next = wrapped_by l (stack ls next)

  -- The bounds of a wrapper that sleeps are a millisecond apart.
  abbrev pub Spreads : Layer random → Type 0
  Spreads (erring rate) = Unit
  Spreads (sleeping low high) = low / millisecond < high / millisecond

  -- A wrapper whose rolls never fail a call.
  abbrev pub Quiet : Layer random → Type 0
  Quiet (erring rate) = (w : World) → below (float64 w).0 rate ≡ false
  Quiet (sleeping low high) = Unit

  -- The least and the most time that wrappers sleep, with parts of a millisecond dropped.
  abbrev pub shortest : List (Layer random) → ℕ
  shortest [] = 0
  shortest (erring rate ∷ ls) = shortest ls
  shortest (sleeping low high ∷ ls) = low / millisecond * millisecond + shortest ls

  abbrev pub longest : List (Layer random) → ℕ
  longest [] = 0
  longest (erring rate ∷ ls) = longest ls
  longest (sleeping low high ∷ ls) = high / millisecond * millisecond + longest ls

  -- `Idles w t w'`: rolls, draws and sleeps of `t` nanoseconds in all lead from `w` to `w'`.
  pub data Idles : World → ℕ → World → Type 0 where
    still : {w : World} → Idles w 0 w
    rolled : {w : World} {t : ℕ} {w' : World} → Idles (float64 w).1 t w' → Idles w t w'
    napped :
        (n d : ℕ) {w : World} {t : ℕ} {w' : World}
        → Idles (time_sleep d (int63n n w).1) t w'
        → Idles w (d + t) w'

  -- What the documentation of `rand.Int63n` says.
  abbrev pub Draws : Type 0
  Draws = (n : ℕ) (w : World) → 0 < n → (int63n n w).0 < n

  module _ (next : Client v World) (m : Method) (a : Args v m) where
    abbrev Answer : Type 0
    Answer = Ending (Returns v m) × World

    -- The call is that of the wrapped client, after a time within the bounds.
    abbrev pub Passed : List (Layer random) → World → Answer → Type 0
    Passed ls w r =
        (t : ℕ) × (w1 : World) × Idles w t w1
        × (shortest ls ≤ t)
        × (t ≤ longest ls)
        × (r ≡ next.call m a w1)

    -- A wrapper failed the call, so the wrapped client was not called.
    abbrev pub Failed : List (Layer random) → World → Answer → Type 0
    Failed ls w r =
        (t : ℕ) × (w1 : World) × Idles w t w1
        × (t ≤ longest ls)
        × (r ≡ (returns (err (codes "error")), w1))

    -- The one or the other, and a wrapper that fails a call is one that may.
    abbrev pub PassedOrFailed : List (Layer random) → World → Answer → Type 0
    PassedOrFailed ls w r = Passed ls w r ⊎ ((All Quiet ls → ⊥) × Failed ls w r)

    -- The interface of the method is one of the wrapped client and of both kinds of wrappers.
    abbrev pub IsSupported : Type 0
    IsSupported =
        (next.implements (interface_of m) ≡ true)
        × (erroring_implements (interface_of m) ≡ true)
        × (sleepy_implements (interface_of m) ≡ true)

    stack-IsSupported :
        (ls : List (Layer random))
        → IsSupported
        → (stack ls next).implements (interface_of m) ≡ true
    unfolding erroring_client sleepy_client
    stack-IsSupported [] h = h.0
    stack-IsSupported (erring rate ∷ ls) h = h.1
    stack-IsSupported (sleeping low high ∷ ls) h = h.2

    -- The call of a client that has the interface, by way of each kind of wrapper.
    module _ (below_it : Client v World) (s : below_it.implements (interface_of m) ≡ true) where
      erroring_call-failed :
          (rate : Rate) (w : World)
          → below (float64 w).0 rate ≡ true
          → (wrapped_by (erring rate) below_it).call m a w
            ≡ (returns (err (codes "error")), (float64 w).1)
      unfolding erroring_client erroring_call
      erroring_call-failed rate w e = rw e

      erroring_call-passed :
          (rate : Rate) (w : World)
          → below (float64 w).0 rate ≡ false
          → (wrapped_by (erring rate) below_it).call m a w ≡ below_it.call m a (float64 w).1
      unfolding erroring_client erroring_call
      erroring_call-passed rate w e = rw (e, s)

      sleepy_call-passed :
          (low high : ℕ) (w : World)
          → Spreads (sleeping low high)
          → let sleepy : Sleepy v random clock = record {
            min_sleep = low;
            max_sleep = high;
            next = below_it;
          } in
            (wrapped_by (sleeping low high) below_it).call m a w
            ≡ below_it.call m a
                (slept v random clock sleepy (int63n (spread v random clock sleepy) w))
      unfolding sleepy_client sleepy_call
      sleepy_call-passed low high w h =
          rw (not_zero (high / millisecond - low / millisecond) (omega arith), s)

    erring-PassedOrFailed :
        (rate : Rate) (ls : List (Layer random)) (w : World)
        → IsSupported
        → ((w1 : World) → PassedOrFailed ls w1 ((stack ls next).call m a w1))
        → PassedOrFailed (erring rate ∷ ls) w ((stack (erring rate ∷ ls) next).call m a w)
    erring-PassedOrFailed rate ls w h rest = elim (Bool-cases (below (float64 w).0 rate)) [
      | inl e ↦ inr (
        λ q. true_not_false (sym e ∙ q.0 w),
        (
          0,
          (float64 w).1,
          rolled still,
          omega arith,
          erroring_call-failed (stack ls next) (stack-IsSupported ls h) rate w e,
        ),
      )
      | inr e ↦ elim (rest (float64 w).1) [
        | inl (t, w1, idle, low, high, p) ↦ inl (
          t,
          w1,
          rolled idle,
          low,
          high,
          erroring_call-passed (stack ls next) (stack-IsSupported ls h) rate w e ∙ p,
        )
        | inr (noisy, (t, w1, idle, high, p)) ↦ inr (
          λ q. noisy q.1,
          (
            t,
            w1,
            rolled idle,
            high,
            erroring_call-passed (stack ls next) (stack-IsSupported ls h) rate w e ∙ p,
          ),
        )
      ]
    ]

    sleeping-PassedOrFailed :
        (low high : ℕ) (ls : List (Layer random)) (w : World)
        → Draws
        → Spreads (sleeping low high)
        → IsSupported
        → ((w1 : World) → PassedOrFailed ls w1 ((stack ls next).call m a w1))
        → PassedOrFailed
            (sleeping low high ∷ ls)
            w
            ((stack (sleeping low high ∷ ls) next).call m a w)
    sleeping-PassedOrFailed low high ls w draws g h rest =
        let n = high / millisecond - low / millisecond in
        let r = (int63n n w).0 in
        let d = (low / millisecond + r) * millisecond in
        let (at_least, at_most) =
          nap_bounds (low / millisecond) (high / millisecond) r g (draws n w (omega arith)) in
        let p = sleepy_call-passed (stack ls next) (stack-IsSupported ls h) low high w g in
        elim (rest (time_sleep d (int63n n w).1)) [
          | inl (t, w1, idle, from, to, q) ↦
              inl (d + t, w1, napped n d idle, omega arith, omega arith, p ∙ q)
          | inr (noisy, (t, w1, idle, to, q)) ↦
              inr (λ quiet. noisy quiet.1, (d + t, w1, napped n d idle, omega arith, p ∙ q))
        ]

    -- A method is called on a client through any number of erroring and sleepy wrappers, in any
    -- order. If the client and both kinds of wrappers have its interface, the bounds of each
    -- sleepy wrapper are in different milliseconds, and `rand.Int63n` draws below its argument,
    -- then the call either ends as the same call of the client, after the wrappers have only
    -- rolled, drawn and slept, for no less than the sum of their least times and no more than the
    -- sum of their most; or it fails with "error" without calling the client, after no more than
    -- that, and some wrapper is one whose rolls may fail a call.
    pub stack-PassedOrFailed :
        (ls : List (Layer random)) (w : World)
        → Draws
        → IsSupported
        → All Spreads ls
        → PassedOrFailed ls w ((stack ls next).call m a w)
    stack-PassedOrFailed [] w draws h g = inl (0, w, still, omega arith, omega arith, refl)
    stack-PassedOrFailed (erring rate ∷ ls) w draws h g =
        erring-PassedOrFailed rate ls w h (λ w1. stack-PassedOrFailed ls w1 draws h g.1)
    stack-PassedOrFailed (sleeping low high ∷ ls) w draws h g =
        sleeping-PassedOrFailed low high ls w draws g.0 h
          (λ w1. stack-PassedOrFailed ls w1 draws h g.1)

  -- A sleepy client whose bounds are in the same millisecond is made, and panics on each call.
  pub new_sleepy_panics :
      (low high : ℕ) (next : Client v World) (w : World) (m : Method) (a : Args v m) (w1 : World)
      → low ≤ high
      → low / millisecond ≡ high / millisecond
      → let s : Sleepy v random clock = record { min_sleep = low; max_sleep = high; next = next } in
        (new_sleepy v random clock low high (some next) w ≡ (ok s, seed w))
        × (sleepy_call v random clock s m a w1 ≡ (panics, w1))
  unfolding new_sleepy sleepy_call
  new_sleepy_panics low high next w m a w1 h e =
      (rw (not_ltb low high h), rw (zero_spread (low / millisecond) (high / millisecond) e))
