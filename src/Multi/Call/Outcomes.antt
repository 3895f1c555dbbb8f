-- ===== src/Multi/Call/Outcomes.antt =====
-- `doCall` implements the specification of a call on several clients.
use mathlib.Core.Option.{some-injective}
use go_eth2_client.Prelude.{
  Error, Bool, true, false, Option, none, some, List, [], ◌∷◌, ◌≡◌, refl, ap, subst, ◌∙◌, inl, inr,
  ◌⊎◌, ◌≢◌,
}
use go_eth2_client.Multi.Pool.{Client, Service, deactivate_client}
use go_eth2_client.Multi.Call.{
  Network, Reply, CallFunc, ErrHandlerFunc, handle, empty_response, Rest, on_error, on_reply,
  call_loop, call_active, call_rechecked, do_call, rechecked, rechecked_from, AtCopy,
  no_active_clients,
}
use go_eth2_client.Multi.Call.Spec.{done, empty, fails, Outcome, served, refused, exhausted}

module _ (net : Network) {A : Type 0} (call : CallFunc net A)
    (err_handler : Option (ErrHandlerFunc net)) where
  open net use {World, address}

  -- One client is passed over before the outcome `o` of the rest.
  after_empty :
      (c : Client) (cs : List Client) (e : Option Error) (s : Service) (w w1 : World)
      (r : Reply A × Service × World)
      → call c w ≡ (record { value = none; error = none }, w1)
      → Outcome net call err_handler cs (some empty_response) s w1 r
      → Outcome net call err_handler (c ∷ cs) e s w r
  after_empty c cs e s w w1 r h (served before after failed d e' wa wb v p sk q) =
      served (c ∷ before) after failed d e' wa wb v (ap (◌∷◌ c) p) (empty h sk) q
  after_empty c cs e s w w1 r h (refused before after failed d e' wa wb wc v e1 e2 p sk q k) =
      refused (c ∷ before) after failed d e' wa wb wc v e1 e2 (ap (◌∷◌ c) p) (empty h sk) q k
  after_empty c cs e s w w1 r h (exhausted failed e' wa sk) = exhausted failed e' wa (empty h sk)

  after_failure :
      (c : Client) (cs : List Client) (e : Option Error) (s : Service) (w : World) (v : Option A)
      (e1 : Error) (w1 w2 : World) (e2 : Option Error) (r : Reply A × Service × World)
      → call c w ≡ (record { value = v; error = some e1 }, w1)
      → handle net err_handler c e1 w1 ≡ (true, e2, w2)
      → Outcome net call err_handler cs e2 (deactivate_client address c s) w2 r
      → Outcome net call err_handler (c ∷ cs) e s w r
  after_failure c cs e s w v e1 w1 w2 e2 r h k (served before after failed d e' wa wb u p sk q) =
      served (c ∷ before) after (c ∷ failed) d e' wa wb u (ap (◌∷◌ c) p) (fails h k sk) q
  after_failure c cs e s w v e1 w1 w2 e2 r h k
        (refused before after failed d e' wa wb wc u e3 e4 p sk q m) =
      refused (c ∷ before) after (c ∷ failed) d e' wa wb wc u e3 e4 (ap (◌∷◌ c) p) (fails h k sk) q
        m
  after_failure c cs e s w v e1 w1 w2 e2 r h k (exhausted failed e' wa sk) =
      exhausted (c ∷ failed) e' wa (fails h k sk)

  abbrev RestOutcome : List Client → Rest net call err_handler → Type 0
  RestOutcome cs rest =
      (e : Option Error) (s : Service) (w : World)
      → Outcome net call err_handler cs e s w (rest e s w)

  on_error-Outcome :
      (c : Client) (cs : List Client) (rest : Rest net call err_handler) (e : Option Error)
      (s : Service) (w : World) (v : Option A) (e1 : Error) (w1 : World) (failover : Bool)
      (e2 : Option Error) (w2 : World)
      → call c w ≡ (record { value = v; error = some e1 }, w1)
      → handle net err_handler c e1 w1 ≡ (failover, e2, w2)
      → RestOutcome cs rest
      → Outcome net call err_handler
          (c ∷ cs)
          e
          s
          w
          (on_error net call err_handler c rest s v (failover, e2, w2))
  unfolding on_error
  on_error-Outcome c cs rest e s w v e1 w1 true e2 w2 h k ih =
      after_failure c cs e s w v e1 w1 w2 e2 _ h k (ih e2 _ w2)
  on_error-Outcome c cs rest e s w v e1 w1 false e2 w2 h k ih =
      refused [] cs [] c e w w1 w2 v e1 e2 refl done h k

  on_reply-Outcome :
      (c : Client) (cs : List Client) (rest : Rest net call err_handler) (e : Option Error)
      (s : Service) (w : World) (v : Option A) (e1 : Option Error) (w1 : World)
      → call c w ≡ (record { value = v; error = e1 }, w1)
      → RestOutcome cs rest
      → Outcome net call err_handler (c ∷ cs) e s w (on_reply net call err_handler c rest s v e1 w1)
  unfolding on_reply
  on_reply-Outcome c cs rest e s w v (some e1) w1 h ih =
      let (failover, e2, w2) = handle net err_handler c e1 w1 in
      on_error-Outcome c cs rest e s w v e1 w1 failover e2 w2 h refl ih
  on_reply-Outcome c cs rest e s w none none w1 h ih =
      after_empty c cs e s w w1 _ h (ih (some empty_response) s w1)
  on_reply-Outcome c cs rest e s w (some v) none w1 h ih = served [] cs [] c e w w1 v refl done h

  -- The loop of `doCall` ends as the specification says, from every state.
  pub call_loop-Outcome :
      (cs : List Client) (e : Option Error) (s : Service) (w : World)
      → Outcome net call err_handler cs e s w (call_loop net call err_handler cs e s w)
  unfolding call_loop
  call_loop-Outcome [] e s w = exhausted [] e w done
  call_loop-Outcome (c ∷ cs) e s w =
      let (res, w') = call c w in
      on_reply-Outcome c cs (call_loop net call err_handler cs) e s w res.value res.error w' refl
        (call_loop-Outcome cs)

  -- What `doCall` promises from the state at its copy `cs` of the active clients.
  abbrev pub CallOutcome : List Client → Service → World → Reply A × Service × World → Type 0
  CallOutcome cs s w r =
      ((cs ≡ []) × (r ≡ (record { value = none; error = some no_active_clients }, s, w)))
      ⊎ ((cs ≢ []) × Outcome net call err_handler cs none s w r)

  call_active-CallOutcome :
      (cs : List Client) (s : Service) (w : World)
      → CallOutcome cs s w (call_active net call err_handler cs s w)
  unfolding call_active
  call_active-CallOutcome [] s w = inl (refl, refl)
  call_active-CallOutcome (c ∷ cs) s w = inr (λ p. cc, call_loop-Outcome (c ∷ cs) none s w)

  -- What `doCall` promises from where the recheck before it led, if to no panic.
  abbrev pub Follows : Option (Service × World) → Option (Reply A × Service × World) → Type 0
  Follows none r = r ≡ none
  Follows (some (s, w)) r =
      (x : Reply A × Service × World) × (r ≡ some x) × CallOutcome s.active_clients s w x

  call_rechecked-Follows :
      (x : Option (Service × World)) → Follows x (call_rechecked net call err_handler x)
  call_rechecked-Follows none = refl
  call_rechecked-Follows (some (s, w)) =
      (call_active net call err_handler s.active_clients s w, refl, call_active-CallOutcome _ s w)

  -- Whatever the clients, the call and the error handler do, `doCall` implements the relation of
  -- a call on several clients. With no client active it rechecks all first, and panics exactly
  -- where that recheck does. If still none is active it returns the error for that and touches
  -- nothing more. Otherwise the clients of its copy are tried in order: those that fail with a
  -- failover are deactivated and passed over, those that return nothing are passed over, and the
  -- first other reply is returned; if there is none, the last error is.
  pub do_call-CallOutcome :
      (s : Service) (w : World) → Follows (rechecked net s w) (do_call net call err_handler s w)
  unfolding do_call
  do_call-CallOutcome s w = call_rechecked-Follows (rechecked net s w)

  call_rechecked-some :
      (x : Option (Service × World)) {r : Reply A × Service × World}
      → call_rechecked net call err_handler x ≡ some r
      → (s1 : Service) × (w1 : World) × (x ≡ some (s1, w1)) × CallOutcome s1.active_clients s1 w1 r
  call_rechecked-some none h = cc
  call_rechecked-some (some (s, w)) h = (
    s,
    w,
    refl,
    subst (CallOutcome s.active_clients s w) (some-injective _ _ h)
        (call_active-CallOutcome s.active_clients s w),
  )

  -- A call that ends in no panic had an outcome.
  pub do_call-some :
      (s : Service) (w : World) {r : Reply A × Service × World}
      → do_call net call err_handler s w ≡ some r
      → AtCopy net s w (λ s1 w1. CallOutcome s1.active_clients s1 w1 r)
  unfolding do_call
  do_call-some s w h = call_rechecked-some (rechecked net s w) h

  -- The reply of the first active client is final if it is a value with no error.
  pub do_call_first :
      (c : Client) (cs : List Client) (s : Service) (w : World) (v : A) (w' : World)
      → s.active_clients ≡ c ∷ cs
      → call c w ≡ (record { value = some v; error = none }, w')
      → do_call net call err_handler s w ≡ some (record { value = some v; error = none }, s, w')
  unfolding do_call
  do_call_first c cs s w v w' p h =
      ap (λ xs. call_rechecked net call err_handler (rechecked_from net xs s w)) p
      ∙ ap (λ xs. some (call_active net call err_handler xs s w)) p
      ∙ ap
          (λ (r : Reply A × World). some (
            on_reply net call err_handler c (call_loop net call err_handler cs) s r.0.value
              r.0.error r.1))
          h
