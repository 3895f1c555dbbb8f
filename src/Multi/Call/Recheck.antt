-- ===== src/Multi/Call/Recheck.antt =====
-- What `recheck` and `doCall` do to the lists of clients.
use mathlib.Core.List.{Perm}
use mathlib.Core.Option.{some-injective}
use go_eth2_client.Prelude.{
  Error, Bool, true, false, Option, List, [], ◌∷◌, ◌++◌, map, ◌≡◌, refl, sym, ap, inl, inr, ◌∙◌,
  some, none, and_then,
}
use go_eth2_client.Multi.Pool.{Client, Service}
use go_eth2_client.Multi.Pool.Partition.{
  Move, activate, deactivate, run_moves, run_moves-append, run_moves-perm, clients,
}
use go_eth2_client.Multi.Call.{
  Network, Reply, CallFunc, ErrHandlerFunc, ping, recheck_loop, recheck, do_call, rechecked_from,
  moved_on,
}
use go_eth2_client.Multi.Call.Spec.{Outcome, served, refused, exhausted}
use go_eth2_client.Multi.Call.Outcomes.{CallOutcome, do_call-some}

-- The move that a ping's answer calls for.
abbrev pub verdict : Client × Bool → Move
verdict (c, true) = activate c
verdict (c, false) = deactivate c

module _ (net : Network) where
  open net use {World, address}

  abbrev pub also :
      Client → Bool → Option (List (Client × Bool) × World) → Option (List (Client × Bool) × World)
  also c b none = none
  also c b (some (given, w)) = some ((c, b) ∷ given, w)

  -- The answers of the clients to pings in turn, and the world after them; `none` if a ping panics.
  abbrev pub answers : List Client → World → Option (List (Client × Bool) × World)
  answers [] w = some ([], w)
  answers (c ∷ cs) w =
      and_then (ping net c w) (λ (answer : Bool × World). also c answer.0 (answers cs answer.1))

  -- The service after the moves that the answers call for.
  abbrev pub moved_by : Service → Option (List (Client × Bool) × World) → Option (Service × World)
  moved_by s none = none
  moved_by s (some (given, w)) = some (run_moves address (map verdict given) s, w)

  move_on_answer :
      (c : Client) (b : Bool) (s : Service)
      → moved_on net c b s ≡ run_moves address (verdict (c, b) ∷ []) s
  move_on_answer c true s = refl
  move_on_answer c false s = refl

  moved_by-also :
      (c : Client) (b : Bool) (s : Service) (x : Option (List (Client × Bool) × World))
      → moved_by (moved_on net c b s) x ≡ moved_by s (also c b x)
  moved_by-also c b s none = refl
  moved_by-also c b s (some (given, w)) =
      ap (λ t. some (run_moves address (map verdict given) t, w)) (move_on_answer c b s)

  recheck_loop-cons :
      (c : Client) (cs : List Client) (s : Service) (x : Option (Bool × World))
      → ((s : Service) (w : World) → recheck_loop net cs s w ≡ moved_by s (answers cs w))
      → and_then x
          (λ (answer : Bool × World). recheck_loop net cs (moved_on net c answer.0 s) answer.1)
        ≡ moved_by s (and_then x (λ (answer : Bool × World). also c answer.0 (answers cs answer.1)))
  recheck_loop-cons c cs s none ih = refl
  recheck_loop-cons c cs s (some (b, w)) ih = ih _ w ∙ moved_by-also c b s (answers cs w)

  recheck_loop-moves :
      (cs : List Client) (s : Service) (w : World)
      → recheck_loop net cs s w ≡ moved_by s (answers cs w)
  unfolding recheck_loop
  recheck_loop-moves [] s w = refl
  recheck_loop-moves (c ∷ cs) s w = recheck_loop-cons c cs s (ping net c w) (recheck_loop-moves cs)

  -- Rechecking makes one move for each client, in order: the ones that answer a ping that they are
  -- ready are activated, the others are deactivated. It panics exactly where a ping does.
  pub recheck-moves :
      (s : Service) (w : World) → recheck net s w ≡ moved_by s (answers (clients s) w)
  unfolding recheck
  recheck-moves s w = recheck_loop-moves (clients s) s w

  module _ {A : Type 0} (call : CallFunc net A) (err_handler : Option (ErrHandlerFunc net)) where
    -- The moves behind a value of the service.
    abbrev Moved : Service → Service → Type 0
    Moved s t = (ms : List Move) × (t ≡ run_moves address ms s)

    Outcome-Moved :
        {cs : List Client} {e : Option Error} {s : Service} {w : World}
        {r : Reply A × Service × World}
        → Outcome net call err_handler cs e s w r
        → Moved s r.1
    Outcome-Moved (served before after failed c e' w1 w2 v p sk h) = (map deactivate failed, refl)
    Outcome-Moved (refused before after failed c e' w1 w2 w3 v e1 e2 p sk h k) =
        (map deactivate failed, refl)
    Outcome-Moved (exhausted failed e' w1 sk) = (map deactivate failed, refl)

    moved_by-Moved :
        (s : Service) (x : Option (List (Client × Bool) × World)) {s1 : Service} {w1 : World}
        → moved_by s x ≡ some (s1, w1)
        → Moved s s1
    moved_by-Moved s none h = cc
    moved_by-Moved s (some (given, w)) h =
        (map verdict given, sym (ap (λ (p : Service × World). p.0) (some-injective _ _ h)))

    rechecked-Moved :
        (cs : List Client) (s : Service) (w : World) {s1 : Service} {w1 : World}
        → rechecked_from net cs s w ≡ some (s1, w1)
        → Moved s s1
    rechecked-Moved [] s w h =
        moved_by-Moved s (answers (clients s) w) (sym (recheck-moves s w) ∙ h)
    rechecked-Moved (c ∷ cs) s w h =
        ([], sym (ap (λ (p : Service × World). p.0) (some-injective _ _ h)))

    CallOutcome-Moved :
        (cs : List Client) (s : Service) (w : World) {r : Reply A × Service × World}
        → CallOutcome net call err_handler cs s w r
        → Moved s r.1
    CallOutcome-Moved cs s w (inl (p, q)) = ([], ap (λ r. r.1) q)
    CallOutcome-Moved cs s w (inr (p, o)) = Outcome-Moved o

    do_call-Moved :
        (s : Service) (w : World) {r : Reply A × Service × World}
        → do_call net call err_handler s w ≡ some r
        → Moved s r.1
    do_call-Moved s w h =
        let (s1, w1, p, o) = do_call-some net call err_handler s w h in
        let (before, e) = rechecked-Moved s.active_clients s w p in
        let (ms, k) = CallOutcome-Moved s1.active_clients s1 w1 o in
        (before ++ ms, k ∙ ap (run_moves address ms) e ∙ sym (run_moves-append address before ms s))

    -- Whatever the clients and the error handler do, a call of `doCall` that does not panic
    -- leaves the service with the same clients over both lists, each as often.
    pub do_call-perm :
        (s : Service) (w : World) {r : Reply A × Service × World}
        → do_call net call err_handler s w ≡ some r
        → Perm (clients r.1) (clients s)
    do_call-perm s w h = let (ms, e) = do_call-Moved s w h in rw e (run_moves-perm address ms s)
