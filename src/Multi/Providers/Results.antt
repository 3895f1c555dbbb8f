-- ===== src/Multi/Providers/Results.antt =====
-- Where the results of the service's methods come from.
use go_eth2_client.Prelude.{
  Error, Result, ok, err, Bool, false, none, some, List, ◌∷◌, ◌++◌, ◌≡◌, ◌≢◌, inl, inr, ap, arith,
  Option, refl, sym, ◌∙◌,
}
use go_eth2_client.Multi.Pool.{Client, Service}
use go_eth2_client.Multi.Call.{Network, Reply, CallFunc, do_call, AtCopy}
use go_eth2_client.Multi.Call.Outcomes.{do_call_first}
use go_eth2_client.Multi.Call.Replies.{do_call-IsAnswered, IsAnswered, do_call-Replies, Replies}
use go_eth2_client.Multi.Providers.{
  Method, passed, call_provider, checked, call_checked, finish, fetch, finish_checked,
  fetch_checked,
}

module _ (net : Network) {A : Type 0} where
  open net use {World}

  -- A client among `cs` answers a method with the value `a`, in some world.
  abbrev pub Answers : List Client → Method net A → A → Type 0
  Answers cs provider a =
      (before after : List Client) × (c : Client) × (w1 : World) × (w2 : World) × (cs
        ≡ before ++ c ∷ after)
      × (provider c w1 ≡ (ok a, w2))

  finish-ok :
      (call : CallFunc net A) (r : Reply A × Service × World) (nil : A) {a : A} {s' : Service}
      {w' : World}
      → IsAnswered net call r.0
      → finish net nil (some r) ≡ some (ok a, s', w')
      → r.0 ≡ record { value = some a; error = none }
  finish-ok call r nil (inl (v, p)) h = ground arith
  finish-ok call r nil (inr (e, p)) h = ground arith

  passed-ok :
      (r : Result A × World) {a : A} {w' : World}
      → passed net r ≡ (record { value = some a; error = none }, w')
      → r ≡ (ok a, w')
  passed-ok (ok a, w) h = ground arith
  passed-ok (err e, w) h = ground arith

  Replies-Answers :
      (cs : List Client) (provider : Method net A) {a : A}
      → Replies net (call_provider net provider) cs a
      → Answers cs provider a
  unfolding call_provider
  Replies-Answers cs provider (before, after, c, w1, w2, p, h) =
      (before, after, c, w1, w2, p, passed-ok (provider c w1) h)

  finish-some :
      (x : Option (Reply A × Service × World)) (nil : A) {y : Result A × Service × World}
      → finish net nil x ≡ some y
      → (r : Reply A × Service × World) × (x ≡ some r)
  finish-some none nil h = cc
  finish-some (some r) nil h = (r, refl)

  -- A result that a fetching method returns with no error is the result of one of the clients
  -- that were active when the call took its copy of them: no value is made up, not even nil.
  pub fetch-Answers :
      (nil : A) (provider : Method net A) (s : Service) (w : World) {a : A} {s' : Service}
      {w' : World}
      → fetch net nil provider s w ≡ some (ok a, s', w')
      → AtCopy net s w (λ s1 w1. Answers s1.active_clients provider a)
  unfolding fetch
  fetch-Answers nil provider s w h =
      let call = call_provider net provider in
      let (r, p) = finish-some (do_call net call none s w) nil h in
      let q =
        finish-ok call r nil (do_call-IsAnswered net call s w p)
          (ap (finish net nil) (sym p) ∙ h) in
      let (s1, w1, k, replies) = do_call-Replies net call s w p q in
      (s1, w1, k, Replies-Answers s1.active_clients provider replies)

  -- The result of the first active client, if it is no error, is returned and leaves the service
  -- as it was, also where it is a nil pointer: the other clients are not asked.
  pub fetch_first :
      (nil : A) (provider : Method net A) (c : Client) (cs : List Client) (s : Service) (w : World)
      (a : A) (w' : World)
      → s.active_clients ≡ c ∷ cs
      → provider c w ≡ (ok a, w')
      → fetch net nil provider s w ≡ some (ok a, s, w')
  unfolding fetch call_provider
  fetch_first nil provider c cs s w a w' p h =
      ap (finish net nil)
        (do_call_first net (call_provider net provider) none c cs s w a w' p (ap (passed net) h))

  checked-ok :
      (is_bad : A → Bool) (e : Error) (r : Result A × World) {a : A} {w' : World}
      → checked net is_bad e r ≡ (record { value = some a; error = none }, w')
      → (r ≡ (ok a, w')) × (is_bad a ≡ false)
  checked-ok is_bad e (ok a, w) h = ground arith
  checked-ok is_bad e (err e', w) h = ground arith

  finish_checked-value :
      (call : CallFunc net A) (r : Reply A × Service × World) {o : Option (Result A)} {s' : Service}
      {w' : World}
      → IsAnswered net call r.0
      → finish_checked net (some r) ≡ some (o, s', w')
      → o ≢ none
  finish_checked-value call r (inl (v, p)) h k = ground arith
  finish_checked-value call r (inr (e, p)) h k = ground arith

  finish_checked-ok :
      (r : Reply A × Service × World) {o : Option (Result A)} {s' : Service} {w' : World} {a : A}
      → finish_checked net (some r) ≡ some (o, s', w')
      → o ≡ some (ok a)
      → r.0 ≡ record { value = some a; error = none }
  finish_checked-ok r h k = ground arith

  finish_checked-some :
      (x : Option (Reply A × Service × World)) {y : Option (Result A) × Service × World}
      → finish_checked net x ≡ some y
      → (r : Reply A × Service × World) × (x ≡ some r)
  finish_checked-some none h = cc
  finish_checked-some (some r) h = (r, refl)

  -- A method that checks its result and whose recheck, if it makes one, does not panic does not
  -- panic on its type assertion, and a result that it returns passed the check and came from one
  -- of the clients that were active when the call took its copy.
  pub fetch_checked_sound :
      (is_bad : A → Bool) (e : Error) (provider : Method net A) (s : Service) (w : World)
      {o : Option (Result A)} {s' : Service} {w' : World}
      → fetch_checked net is_bad e provider s w ≡ some (o, s', w')
      → (o ≢ none)
        × ((a : A)
            → o ≡ some (ok a)
            → (is_bad a ≡ false) × AtCopy net s w (λ s1 w1. Answers s1.active_clients provider a))
  unfolding fetch_checked call_checked
  fetch_checked_sound is_bad e provider s w h =
      let call = call_checked net is_bad e provider in
      let (r, p) = finish_checked-some (do_call net call none s w) h in
      let k = ap (finish_checked net) (sym p) ∙ h in
      (
        finish_checked-value call r (do_call-IsAnswered net call s w p) k,
        λ a q.
            let (s1, w1, at, (before, after, c, wa, wb, m, answer)) =
              do_call-Replies net call s w p (finish_checked-ok r k q) in
            let (own, good) = checked-ok is_bad e (provider c wa) answer in
            (good, (s1, w1, at, (before, after, c, wa, wb, m, own))),
      )
