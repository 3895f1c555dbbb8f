-- ===== src/Prelude/Outcome.antt =====
-- A Go function that returns a value and an error: exactly one of them is meant.
use mathlib.Core.Path.{◌≡◌, refl, ap, subst}
use mathlib.Core.Logic.{◌⊎◌, inl, inr}
use mathlib.Core.List.{◌++◌}
use mathlib.Core.Option.{Option, none, some}
use go_eth2_client.Prelude.Strings.{Text, codes}

-- An error is the text that its method `Error` returns.
abbrev pub Error : Type 0
Error = Text

-- `errors.Wrap`.
abbrev pub wrap : Error → Text → Error
wrap e message = message ++ codes ": " ++ e

pub data Result {ℓ} (A : Type ℓ) : Type ℓ where
  err : Error → Result A
  ok : A → Result A

module _ {ℓ κ} {A : Type ℓ} {B : Type κ} where
  infixl 5 ◌>>=◌
  -- What follows `if err != nil { return …, err }`.
  abbrev pub ◌>>=◌ : Result A → (A → Result B) → Result B
  ◌>>=◌ (err e) rest = err e
  ◌>>=◌ (ok a) rest = rest a

module _ {ℓ} {A : Type ℓ} where
  -- `if err != nil { return …, errors.Wrap(err, message) }`.
  abbrev pub wrapped : Text → Result A → Result A
  wrapped message (err e) = err (wrap e message)
  wrapped message (ok a) = ok a

  pub Result-split : (r : Result A) → ((e : Error) × (r ≡ err e)) ⊎ ((a : A) × (r ≡ ok a))
  Result-split (err e) = inl (e, refl)
  Result-split (ok a) = inr (a, refl)

-- How a function ends: with its value and error, or by a panic.
pub data Ending {ℓ} (A : Type ℓ) : Type ℓ where
  returns : Result A → Ending A
  panics : Ending A

module _ {ℓ κ} {A : Type ℓ} where
  -- What a function returns without an error has a property.
  abbrev pub Gives : (A → Type κ) → Result A → Type κ
  Gives P (err e) = Unit
  Gives P (ok a) = P a

  pub Gives-ok : (P : A → Type κ) (r : Result A) {a : A} → Gives P r → r ≡ ok a → P a
  Gives-ok P (err e) g h = cc
  Gives-ok P (ok b) g h = subst P (ap (λ r. elim r [ err e ↦ b | ok c ↦ c ]) h) g

pub Gives-wrapped :
    {A : Type 0} (P : A → Type 0) (message : Text) (r : Result A)
    → Gives P r
    → Gives P (wrapped message r)
Gives-wrapped P message (err e) g = tt
Gives-wrapped P message (ok a) g = g

module _ {A B : Type 0} where
  -- The rule for a chain: what the first part gives may be used after it.
  pub Gives-bind :
      (P : B → Type 0) (Q : A → Type 0) (r : Result A) (f : A → Result B)
      → Gives Q r
      → ((a : A) → Q a → Gives P (f a))
      → Gives P (r >>= f)
  Gives-bind P Q (err e) f g k = tt
  Gives-bind P Q (ok a) f g k = k a g

pub Gives-both :
    {A : Type 0} (P Q : A → Type 0) (r : Result A)
    → Gives P r
    → Gives Q r
    → Gives (λ a. P a × Q a) r
Gives-both P Q (err e) g h = tt
Gives-both P Q (ok a) g h = (g, h)

-- A chain of calls that may panic: `none` is the panic.
module _ {A B : Type 0} where
  abbrev pub and_then : Option A → (A → Option B) → Option B
  and_then none rest = none
  and_then (some a) rest = rest a

  -- A chain that ends went through its first call.
  pub and_then-some :
      (x : Option A) (rest : A → Option B) {b : B}
      → and_then x rest ≡ some b
      → (a : A) × (x ≡ some a) × (rest a ≡ some b)
  and_then-some none rest h = cc
  and_then-some (some a) rest h = (a, refl, h)
