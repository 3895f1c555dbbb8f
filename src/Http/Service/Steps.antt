-- ===== src/Http/Service/Steps.antt =====
-- What holds of the value that a method returns, if it returns one, step by step.
use go_eth2_client.Prelude.{Text, ok, err, Ending, returns, panics, ◌≡◌, refl, subst, sym, arith}
use go_eth2_client.Http.Service.{Service, M, after, rewrap}

-- `P` holds of the value of an ending; errors and panics have none.
abbrev pub Yields : {W A : Type 0} → (A → Type 0) → Ending A × Service × W → Type 0
Yields P (panics, s, w) = Unit {0}
Yields P (returns (err e), s, w) = Unit {0}
Yields P (returns (ok a), s, w) = P a

module _ {W A : Type 0} (P : A → Type 0) where
  -- If it holds whatever the first call yields, it holds of the rest after that call.
  pub after-Yields :
      {B : Type 0} (f : B → M W A) (r : Ending B × Service × W)
      → ((b : B) (s : Service) (w : W) → Yields P (f b s w))
      → Yields P (after f r)
  after-Yields f (panics, s, w) h = tt
  after-Yields f (returns (err e), s, w) h = tt
  after-Yields f (returns (ok b), s, w) h = h b s w

  -- The same where something is known of what the first call yields.
  pub after-Yields_from :
      {B : Type 0} (Q : B → Type 0) (f : B → M W A) (r : Ending B × Service × W)
      → Yields Q r
      → ((b : B) (s : Service) (w : W) → Q b → Yields P (f b s w))
      → Yields P (after f r)
  after-Yields_from Q f (panics, s, w) q h = tt
  after-Yields_from Q f (returns (err e), s, w) q h = tt
  after-Yields_from Q f (returns (ok b), s, w) q h = h b s w q

  -- The same with the call as it went.
  pub after-Yields_at :
      {B : Type 0} (f : B → M W A) (r : Ending B × Service × W)
      → ((b : B) (s : Service) (w : W) → r ≡ (returns (ok b), s, w) → Yields P (f b s w))
      → Yields P (after f r)
  after-Yields_at f (panics, s, w) h = tt
  after-Yields_at f (returns (err e), s, w) h = tt
  after-Yields_at f (returns (ok b), s, w) h = h b s w refl

  pub rewrap-Yields : (t : Text) (r : Ending A × Service × W) → Yields P r → Yields P (rewrap t r)
  rewrap-Yields t (panics, s, w) h = tt
  rewrap-Yields t (returns (err e), s, w) h = tt
  rewrap-Yields t (returns (ok a), s, w) h = h

  pub Yields-map :
      (Q : A → Type 0) (r : Ending A × Service × W)
      → ((a : A) → P a → Q a)
      → Yields P r
      → Yields Q r
  Yields-map Q (panics, s, w) f h = tt
  Yields-map Q (returns (err e), s, w) f h = tt
  Yields-map Q (returns (ok a), s, w) f h = f a h

  pub Yields-ok :
      (r : Ending A × Service × W) {a : A} {s : Service} {w : W}
      → Yields P r
      → r ≡ (returns (ok a), s, w)
      → P a
  Yields-ok r h e = subst (Yields P) e h

-- A method that left the client's state as it was, and panicked only if `P` holds.
abbrev pub IsQuiet : {W A : Type 0} → Type 0 → Service → Ending A × Service × W → Type 0
IsQuiet P s r = (r.0 ≡ panics → P) × (r.1 ≡ s)

module _ {W A B : Type 0} (P : Type 0) (s : Service) where
  pub after-IsQuiet :
      (f : B → M W A) (r : Ending B × Service × W)
      → IsQuiet P s r
      → ((b : B) (w : W) → IsQuiet P s (f b s w))
      → IsQuiet P s (after f r)
  after-IsQuiet f (panics, s', w) (np, e) h = (λ _. np refl, e)
  after-IsQuiet f (returns (err e'), s', w) (np, e) h = (λ k. ground arith, e)
  after-IsQuiet f (returns (ok b), s', w) (np, e) h =
      subst (λ s1. IsQuiet P s (f b s1 w)) (sym e) (h b w)

module _ {W A : Type 0} (P : Type 0) (s : Service) where
  pub rewrap-IsQuiet :
      (t : Text) (r : Ending A × Service × W) → IsQuiet P s r → IsQuiet P s (rewrap t r)
  rewrap-IsQuiet t (panics, s', w) q = q
  rewrap-IsQuiet t (returns (err e), s', w) (np, e') = (λ k. ground arith, e')
  rewrap-IsQuiet t (returns (ok a), s', w) q = q

module _ {W A : Type 0} where
  -- A wrapped error is an error before.
  pub rewrap-ok :
      (t : Text) (r : Ending A × Service × W) {a : A} {s : Service} {w : W}
      → rewrap t r ≡ (returns (ok a), s, w)
      → r ≡ (returns (ok a), s, w)
  rewrap-ok t (panics, s, w) h = ground arith
  rewrap-ok t (returns (err e), s, w) h = ground arith
  rewrap-ok t (returns (ok a), s, w) h = h

  -- What a call yields is what it yields.
  pub Yields-self :
      (r : Ending A × Service × W)
      → Yields (λ (a : A). (s : Service) × (w : W) × (r ≡ (returns (ok a), s, w))) r
  Yields-self (panics, s, w) = tt
  Yields-self (returns (err e), s, w) = tt
  Yields-self (returns (ok a), s, w) = (s, w, refl)
