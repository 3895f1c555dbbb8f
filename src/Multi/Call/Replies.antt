-- ===== src/Multi/Call/Replies.antt =====
-- What comes back from a call whose error handler is nil.
use go_eth2_client.Prelude.{
  Error, Option, none, some, List, [], ◌∷◌, ◌++◌, ◌≡◌, ◌≢◌, ◌⊎◌, inl, inr, refl, ap, arith,
}
use go_eth2_client.Multi.Pool.{Client, Service}
use go_eth2_client.Multi.Call.{Network, Reply, CallFunc, do_call, AtCopy}
use go_eth2_client.Multi.Call.Spec.{Outcome, served, refused, exhausted, Skips, done, empty, fails}
use go_eth2_client.Multi.Call.Outcomes.{CallOutcome, do_call-some}

module _ (net : Network) {A : Type 0} (call : CallFunc net A) where
  open net use {World}

  Skips-error :
      {cs : List Client} {e : Option Error} {w : World} {failed : List Client} {e' : Option Error}
      {w' : World}
      → Skips net call none cs e w failed e' w'
      → (cs ≢ []) ⊎ (e ≢ none)
      → e' ≢ none
  Skips-error done (inl h) = absurd (h refl)
  Skips-error done (inr h) = h
  Skips-error (empty p sk) h = Skips-error sk (inr (λ q. cc))
  Skips-error (fails p k sk) h = Skips-error sk (inr (λ q. cc))

  abbrev pub IsAnswered : Reply A → Type 0
  IsAnswered r =
      ((v : A) × (r ≡ record { value = some v; error = none }))
      ⊎ ((e : Error) × (r ≡ record { value = none; error = some e }))

  failed-IsAnswered :
      (e : Option Error) → e ≢ none → IsAnswered (record { value = none; error = e })
  failed-IsAnswered none h = absurd (h refl)
  failed-IsAnswered (some e) h = inr (e, refl)

  Outcome-IsAnswered :
      {cs : List Client} {e : Option Error} {s : Service} {w : World}
      {r : Reply A × Service × World}
      → cs ≢ []
      → Outcome net call none cs e s w r
      → IsAnswered r.0
  Outcome-IsAnswered h (served before after failed c e' w1 w2 v p sk q) = inl (v, refl)
  Outcome-IsAnswered h (refused before after failed c e' w1 w2 w3 v e1 e2 p sk q k) = cc
  Outcome-IsAnswered h (exhausted failed e' w1 sk) = failed-IsAnswered e' (Skips-error sk (inl h))

  CallOutcome-IsAnswered :
      (cs : List Client) (s : Service) (w : World) {r : Reply A × Service × World}
      → CallOutcome net call none cs s w r
      → IsAnswered r.0
  CallOutcome-IsAnswered cs s w (inl (p, q)) = inr (_, ap (λ r. r.0) q)
  CallOutcome-IsAnswered cs s w (inr (p, o)) = Outcome-IsAnswered p o

  -- A call with no error handler that ends never returns nothing at all: it returns a value and no
  -- error, or an error and no value.
  pub do_call-IsAnswered :
      (s : Service) (w : World) {r : Reply A × Service × World}
      → do_call net call none s w ≡ some r
      → IsAnswered r.0
  do_call-IsAnswered s w h =
      let (s1, w1, p, o) = do_call-some net call none s w h in
      CallOutcome-IsAnswered s1.active_clients s1 w1 o

  -- A client among `cs` replies `v` with no error, in some world.
  abbrev pub Replies : List Client → A → Type 0
  Replies cs v =
      (before : List Client) × (after : List Client) × (c : Client) × (w1 : World) × (w2 : World)
      × (cs ≡ before ++ c ∷ after)
      × (call c w1 ≡ (record { value = some v; error = none }, w2))

  Outcome-Replies :
      {cs : List Client} {e : Option Error} {s : Service} {w : World}
      {r : Reply A × Service × World} {v : A}
      → Outcome net call none cs e s w r
      → r.0 ≡ record { value = some v; error = none }
      → Replies cs v
  Outcome-Replies (served before after failed c e' w1 w2 u p sk q) h =
      (before, after, c, w1, w2, p, ground (arith, q, h))
  Outcome-Replies (refused before after failed c e' w1 w2 w3 u e1 e2 p sk q k) h = cc
  Outcome-Replies (exhausted failed e' w1 sk) h = ground (arith, h)

  CallOutcome-Replies :
      (cs : List Client) (s : Service) (w : World) {r : Reply A × Service × World} {v : A}
      → CallOutcome net call none cs s w r
      → r.0 ≡ record { value = some v; error = none }
      → Replies cs v
  CallOutcome-Replies cs s w (inl (p, q)) h = ground (arith, q, h)
  CallOutcome-Replies cs s w (inr (p, o)) h = Outcome-Replies o h

  -- A value that a call returns is the reply of one of the active clients.
  pub do_call-Replies :
      (s : Service) (w : World) {r : Reply A × Service × World} {v : A}
      → do_call net call none s w ≡ some r
      → r.0 ≡ record { value = some v; error = none }
      → AtCopy net s w (λ s1 w1. Replies s1.active_clients v)
  do_call-Replies s w h k =
      let (s1, w1, p, o) = do_call-some net call none s w h in
      (s1, w1, p, CallOutcome-Replies s1.active_clients s1 w1 o k)
