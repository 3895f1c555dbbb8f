-- ===== src/Multi/New/Members.antt =====
-- Which clients a new service has.
use mathlib.Core.List.{Perm, perm_middle, perm_append_singleton}
use mathlib.Core.List.Perm
use mathlib.Core.Option.{some-injective}
use go_eth2_client.Prelude.{
  ℤ, is_zero, ◌+◌, ◌≤◌, Text, Result, ok, err, Bool, true, false, Option, none, List, [], ◌∷◌, ◌++◌,
  ◌≡◌, ◌≢◌, refl, ap, subst, append_assoc, append-nil, arith, length, length-append, some,
  and_then-some, ℕ,
}
use go_eth2_client.Multi.Metrics.{Metrics}
use go_eth2_client.Multi.Pool.{Client, Service, Sorted}
use go_eth2_client.Multi.Pool.Partition.{clients}
use go_eth2_client.Multi.Call.{Network, ping}
use go_eth2_client.Multi.New.{
  Parameters, Parameter, parse_and_check_parameters, check_parameters, Dial, sort, sort_clients,
  dialled, sort_addresses, finish_with, new_gauged, new_with, new, apply_all, default_timeout,
}

check_parameters-ok :
    (q : Parameters) {p : Parameters}
    → check_parameters q ≡ ok p
    → (is_zero p.timeout ≡ false) × (1 ≤ length p.clients + length p.addresses)
check_parameters-ok q h = ground arith

-- Accepted parameters name a client or an address, and have a timeout.
pub parse_and_check_parameters-ok :
    (level : ℤ) (params : List Parameter) {p : Parameters}
    → parse_and_check_parameters level params ≡ ok p
    → (is_zero p.timeout ≡ false) × (1 ≤ length p.clients + length p.addresses)
unfolding parse_and_check_parameters
parse_and_check_parameters-ok level params h =
    check_parameters-ok
      (apply_all params (record {
        log_level = level;
        monitor = none;
        clients = [];
        addresses = [];
        timeout = default_timeout;
      }))
      h

-- What a service made from checked parameters holds.
abbrev pub Holds : Parameters → Service → Type 0
Holds p s =
    (s.active_clients ≢ [])
    × ((reached : List Client) × (length reached ≤ length p.addresses)
        × Perm (clients s) (reached ++ p.clients))

abbrev members : Sorted → List Client
members v = v.active_list ++ v.inactive_list

finish_new-ok :
    (v : Sorted) (xs : List Client) {s : Service}
    → v.active_list ≡ xs
    → finish_with xs v ≡ ok s
    → (s.active_clients ≢ []) × (clients s ≡ members v)
finish_new-ok v [] e h = ground arith
finish_new-ok v (c ∷ cs) e h = ground arith

module _ (net : Network) where
  open net use {World, address}

  sort-perm : (c : Client) (b : Bool) (v : Sorted) → Perm (members (sort net c b v)) (c ∷ members v)
  sort-perm c true v = rw append_assoc (perm_middle v.active_list v.inactive_list)
  sort-perm c false v =
      rw (← append_assoc v.active_list v.inactive_list (c ∷ []))
        (perm_append_singleton c (members v))

  sort_clients-perm :
      (cs : List Client) (v : Sorted) (w : World) {v' : Sorted} {w' : World}
      → sort_clients net cs v w ≡ some (v', w')
      → Perm (members v') (cs ++ members v)
  unfolding sort_clients
  sort_clients-perm [] v w h =
      subst (λ (x : Sorted × World). Perm (members x.0) (members v)) (some-injective _ _ h)
        (Perm.refl _)
  sort_clients-perm (c ∷ cs) v w h =
      let ((b, w1), p, k) = and_then-some (ping net c w) _ h in
      Perm.trans (sort_clients-perm cs (sort net c b v) w1 k)
        (Perm.trans (Perm.append_left cs (sort-perm c b v)) (perm_middle cs (members v)))

  -- Clients that were reached, at most `n`, stand before those of `v`.
  abbrev Gains : ℕ → Sorted → Sorted → Type 0
  Gains n v v' =
      (reached : List Client) × (length reached ≤ n) × Perm (members v') (reached ++ members v)

  dialled-Gains :
      (r : Result Client × World) (v : Sorted) {v' : Sorted} {w' : World}
      → dialled net r v ≡ some (v', w')
      → Gains 1 v v'
  dialled-Gains (err e, w) v h =
      subst (λ (x : Sorted × World). Gains 1 v x.0) (some-injective _ _ h)
        ([], omega arith, Perm.refl _)
  dialled-Gains (ok c, w) v h =
      let ((b, w1), p, k) = and_then-some (ping net c w) _ h in
      subst (λ (x : Sorted × World). Gains 1 v x.0) (some-injective _ _ k)
        (c ∷ [], omega arith, sort-perm c b v)

  sort_addresses-Gains :
      (dial : Dial net) (p : Parameters) (xs : List Text) (v : Sorted) (w : World) {v' : Sorted}
      {w' : World}
      → sort_addresses net dial p xs v w ≡ some (v', w')
      → Gains (length xs) v v'
  unfolding sort_addresses
  sort_addresses-Gains dial p [] v w h =
      subst (λ (x : Sorted × World). Gains 0 v x.0) (some-injective _ _ h)
        ([], omega arith, Perm.refl _)
  sort_addresses-Gains dial p (a ∷ xs) v w h =
      let r = dial p.log_level p.timeout a w in
      let ((v1, w1), q, k) = and_then-some (dialled net r v) _ h in
      let (got, g, pg) = dialled-Gains r v q in
      let (reached, n, pr) = sort_addresses-Gains dial p xs v1 w1 k in
      (
        reached ++ got,
        omega (arith, length-append reached got),
        Perm.trans pr (rw append_assoc (Perm.append_left reached pg)),
      )

  new_gauged-Holds :
      (dial : Dial net) (p : Parameters) (w : World) (m : Result Metrics) {s : Service} {w' : World}
      → new_gauged net dial p w m ≡ some (ok s, w')
      → Holds p s
  new_gauged-Holds dial p w (err e) h = ground arith
  new_gauged-Holds dial p w (ok gauges) h =
      let start : Sorted = record { active_list = []; inactive_list = []; gauges = gauges } in
      let ((v, w1), q1, k1) = and_then-some (sort_clients net p.clients start w) _ h in
      let ((v', w2), q2, k2) = and_then-some (sort_addresses net dial p p.addresses v w1) _ k1 in
      let (reached, n, pr) = sort_addresses-Gains dial p p.addresses v w1 q2 in
      let (some_active, e) =
        finish_new-ok v' _ refl
          (ap (λ (r : Result Service × World). r.0) (some-injective _ _ k2)) in
      (
        some_active,
        (
          reached,
          n,
          rw e (
              Perm.trans pr (
                Perm.append_left reached (
                  subst (Perm (members v)) (append-nil p.clients)
                    (sort_clients-perm p.clients start w q1)))),
        ),
      )

  new_with-Holds :
      (dial : Dial net) (register : Option Text → Result Metrics) (w : World)
      (q : Result Parameters) {s : Service} {w' : World}
      → new_with net dial register w q ≡ some (ok s, w')
      → (p : Parameters) × (q ≡ ok p) × Holds p s
  new_with-Holds dial register w (err e) h = ground arith
  new_with-Holds dial register w (ok p) h =
      (p, refl, new_gauged-Holds dial p w (register p.monitor) h)

  -- A service that `New` returns comes from accepted parameters and has an active client. Its
  -- clients over both lists are the given ones, each as often as given, and further ones, at most
  -- as many as there are addresses.
  pub new-Holds :
      (dial : Dial net) (register : Option Text → Result Metrics) (level : ℤ)
      (params : List Parameter) (w : World) {s : Service} {w' : World}
      → new net dial register level params w ≡ some (ok s, w')
      → (p : Parameters) × (parse_and_check_parameters level params ≡ ok p) × Holds p s
  unfolding new
  new-Holds dial register level params w h = new_with-Holds dial register w _ h
