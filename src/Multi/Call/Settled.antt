-- ===== src/Multi/Call/Settled.antt =====
-- Where `recheck` leaves each client.
use go_eth2_client.Prelude.{
  Text, Bool, true, false, not, ◌&&◌, ◌||◌, ◌==◌, if◌then◌else◌, List, [], ◌∷◌, ◌++◌, map, member,
  ◌≡◌, refl, ◌∙◌, ap, arith, Bool-cases, inl, inr, ◌⊎◌, subst, sym, Option, some, none, and_then,
}
use go_eth2_client.Multi.Pool.{Client, Service}
use go_eth2_client.Multi.Pool.Moves.{only, others, deactivate_client_lists, activate_client_lists}
use go_eth2_client.Multi.Pool.Partition.{move, run_moves, clients}
use go_eth2_client.Multi.Call.{Network, ping, recheck}
use go_eth2_client.Multi.Call.Recheck.{verdict, also, answers, moved_by, recheck-moves}

-- The last answer of a client among the answers, or the given one if it has none.
abbrev pub last_answer : Client → Bool → List (Client × Bool) → Bool
last_answer c old [] = old
last_answer c old ((d, b) ∷ rest) = last_answer c (if d == c then b else old) rest

member-append :
    (c : Client) (xs ys : List Client) → member c (xs ++ ys) ≡ (member c xs || member c ys)
member-append c [] ys = refl
member-append c (x ∷ xs) ys = ground (arith, member-append c xs ys)

member-only : (c d : Client) (xs : List Client) → member c (only d xs) ≡ (d == c && member c xs)
member-only c d [] = ground arith
member-only c d (x ∷ xs) = ground (arith, member-only c d xs)

member-others :
    (c d : Client) (xs : List Client) → member c (others d xs) ≡ (not (d == c) && member c xs)
member-others c d [] = ground arith
member-others c d (x ∷ xs) = ground (arith, member-others c d xs)

module _ (address : Client → Text) where
  -- Where one move leaves a client of the service.
  verdict-member :
      (c d : Client) (b : Bool) (s : Service)
      → member c (clients s) ≡ true
      → let t = move address (verdict (d, b)) s in
        (member c t.active_clients ≡ (if d == c then b else member c s.active_clients))
        × (member c (clients t) ≡ true)
  verdict-member c d true s h =
      let (a, i) = activate_client_lists address d s in
      ground (
        arith,
        a,
        i,
        member-append c s.active_clients s.inactive_clients,
        member-append c s.active_clients (only d s.inactive_clients),
        member-append c (s.active_clients ++ only d s.inactive_clients)
            (others d s.inactive_clients),
        member-only c d s.inactive_clients,
        member-others c d s.inactive_clients,
      )
  verdict-member c d false s h =
      let (a, i) = deactivate_client_lists address d s in
      ground (
        arith,
        a,
        i,
        member-append c s.active_clients s.inactive_clients,
        member-append c s.inactive_clients (only d s.active_clients),
        member-append c (others d s.active_clients) (s.inactive_clients ++ only d s.active_clients),
        member-only c d s.active_clients,
        member-others c d s.active_clients,
      )

  verdicts-member :
      (c : Client) (given : List (Client × Bool)) (s : Service)
      → member c (clients s) ≡ true
      → member c (run_moves address (map verdict given) s).active_clients
        ≡ last_answer c (member c s.active_clients) given
  verdicts-member c [] s h = refl
  verdicts-member c ((d, b) ∷ given) s h =
      let (a, k) = verdict-member c d b s h in
      verdicts-member c given (move address (verdict (d, b)) s) k
      ∙ ap (λ old. last_answer c old given) a

module _ (net : Network) where
  open net use {World}

  -- A client that was asked has an answer of its own.
  abbrev IsHeard : Client → Option (List (Client × Bool) × World) → Type 0
  IsHeard c none = Unit
  IsHeard c (some (given, w)) =
      (old old' : Bool) → last_answer c old given ≡ last_answer c old' given

  also-IsHeard :
      (c d : Client) (b : Bool) (x : Option (List (Client × Bool) × World))
      → ((d == c) ≡ true) ⊎ IsHeard c x
      → IsHeard c (also net d b x)
  also-IsHeard c d b none h = tt
  also-IsHeard c d b (some (given, w)) (inl hit) = λ old old'. rw hit refl
  also-IsHeard c d b (some (given, w)) (inr h) = λ old old'. h _ _

  first_or_later :
      (c d : Client) (cs : List Client)
      → member c (d ∷ cs) ≡ true
      → ((d == c) ≡ true) ⊎ (member c cs ≡ true)
  first_or_later c d cs h = elim (Bool-cases (d == c)) [
    | inl hit ↦ inl hit
    | inr miss ↦ inr (ground arith)
  ]

  answers-cons_IsHeard :
      (c d : Client) (cs : List Client) (x : Option (Bool × World))
      → member c (d ∷ cs) ≡ true
      → ((w : World) → member c cs ≡ true → IsHeard c (answers net cs w))
      → IsHeard c
          (and_then x (λ (answer : Bool × World). also net d answer.0 (answers net cs answer.1)))
  answers-cons_IsHeard c d cs none h ih = tt
  answers-cons_IsHeard c d cs (some (b, w)) h ih = elim (first_or_later c d cs h) [
    | inl hit ↦ also-IsHeard c d b (answers net cs w) (inl hit)
    | inr later ↦ also-IsHeard c d b (answers net cs w) (inr (ih w later))
  ]

  answers-IsHeard :
      (c : Client) (cs : List Client) (w : World)
      → member c cs ≡ true
      → IsHeard c (answers net cs w)
  answers-IsHeard c [] w h = cc
  answers-IsHeard c (d ∷ cs) w h =
      answers-cons_IsHeard c d cs (ping net d w) h (answers-IsHeard c cs)

  -- Where a client stands after a recheck with the given answers.
  abbrev pub Settles :
      Client → Option (List (Client × Bool) × World) → Option (Service × World) → Type 0
  Settles c none r = r ≡ none
  Settles c (some (given, w)) r =
      (t : Service) × (r ≡ some (t, w)) × (member c t.active_clients ≡ last_answer c false given)

  moved_by-Settles :
      (c : Client) (s : Service) (x : Option (List (Client × Bool) × World))
      → member c (clients s) ≡ true
      → IsHeard c x
      → Settles c x (moved_by net s x)
  moved_by-Settles c s none h k = refl
  moved_by-Settles c s (some (given, w)) h k =
      (_, refl, verdicts-member net.address c given s h ∙ k _ false)

  -- `recheck` panics exactly where one of its pings does. Otherwise a client of the service is
  -- active after it exactly when its last ping in this recheck answered that it is ready,
  -- wherever it was before.
  pub recheck-active :
      (c : Client) (s : Service) (w : World)
      → member c (clients s) ≡ true
      → Settles c (answers net (clients s) w) (recheck net s w)
  recheck-active c s w h =
      subst (Settles c (answers net (clients s) w)) (sym (recheck-moves net s w))
        (moved_by-Settles c s (answers net (clients s) w) h (answers-IsHeard c (clients s) w h))
