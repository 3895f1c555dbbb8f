-- ===== src/Codec/Panics.antt =====
-- Parts of a function that may panic, one after another.
use go_eth2_client.Prelude.{ok, err, Ending, returns, panics, Gives, ◌≡◌, subst}

module _ {A B : Type 0} where
  infixl 5 ◌>>=◌
  abbrev pub ◌>>=◌ : Ending A → (A → Ending B) → Ending B
  ◌>>=◌ panics rest = panics
  ◌>>=◌ (returns (err e)) rest = returns (err e)
  ◌>>=◌ (returns (ok a)) rest = rest a

-- What is returned without an error has a property.
abbrev pub GivesAtEnd : {A : Type 0} → (A → Type 0) → Ending A → Type 0
GivesAtEnd P panics = Unit
GivesAtEnd P (returns r) = Gives P r

pub GivesAtEnd-ok :
    {A : Type 0} (P : A → Type 0) (r : Ending A) {a : A} → GivesAtEnd P r → r ≡ returns (ok a) → P a
GivesAtEnd-ok P r g e = subst (GivesAtEnd P) e g

pub GivesAtEnd-bind :
    {A B : Type 0} (P : B → Type 0) (Q : A → Type 0) (r : Ending A) (rest : A → Ending B)
    → GivesAtEnd Q r
    → ((a : A) → Q a → GivesAtEnd P (rest a))
    → GivesAtEnd P (r >>= rest)
GivesAtEnd-bind P Q panics rest g h = tt
GivesAtEnd-bind P Q (returns (err e)) rest g h = tt
GivesAtEnd-bind P Q (returns (ok a)) rest g h = h a g
