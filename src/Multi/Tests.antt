-- ===== src/Multi/Tests.antt =====
-- Runs of the service over three nodes, and the theorems about it at concrete inputs. The world
-- counts the calls made. Node 1 is a synced Lighthouse node, node 2 is syncing, node 3 is synced but
-- fails its first call; node 4 answers nothing when it is asked for its state.
use mathlib.Core.List.{Perm}
use go_eth2_client.Prelude.{
  ℤ, pos, ℕ, ◌+◌, Text, codes, Result, ok, err, false, ◌==◌, if◌then◌else◌, Option, none, some, [],
  ◌∷◌, ◌≡◌, ◌≢◌, refl, List, length, ◌≤◌, text_eq, arith,
}
use go_eth2_client.Multi.Metrics.{Metrics}
use go_eth2_client.Multi.Pool.{Client, Service, deactivate_client, activate_client}
use go_eth2_client.Multi.Pool.Moves.{IsReported, moves-IsReported}
use go_eth2_client.Multi.Pool.Partition.{activate, deactivate, clients, run_moves, run_moves-perm}
use go_eth2_client.Multi.Call.{
  Network, SyncState, CallFunc, AtCopy, do_call, recheck, ping, provider_info,
}
use go_eth2_client.Multi.Call.Outcomes.{Follows, do_call-CallOutcome}
use go_eth2_client.Multi.Call.Recheck.{answers, do_call-perm}
use go_eth2_client.Multi.Call.Settled.{recheck-active, Settles}
use go_eth2_client.Multi.Call.Replies.{do_call-IsAnswered, IsAnswered}
use go_eth2_client.Multi.Providers.{fetch, fetch_checked, submit}
use go_eth2_client.Multi.Providers.Attestations.{attestations_err_handler, submit_attestations}
use go_eth2_client.Multi.New.{
  Parameters, Parameter, with_clients, with_addresses, parse_and_check_parameters, new,
}
use go_eth2_client.Multi.New.Members.{Holds, new-Holds}
use go_eth2_client.Multi.Events.{events, handle_event}
use go_eth2_client.Multi.Events.Forwarding.{covered, events-perm, handle_event_exclusive}
use go_eth2_client.Multi.Providers.Results.{
  fetch-Answers, Answers, fetch_first, fetch_checked_sound,
}

abbrev node_address : Client → Text
node_address c = if c == 1 then codes "one" else if c == 2 then codes "two" else codes "three"

abbrev sync_state : Client → SyncState
sync_state c = record {
  head_slot = 5;
  sync_distance = 0;
  is_optimistic = false;
  is_syncing = c == 2;
}

abbrev nodes : Network
nodes = record {
  World = ℕ;
  address = node_address;
  node_syncing = λ c. some (λ w. (ok (if c == 4 then none else some (sync_state c)), w + 1));
  node_version =
      λ c. some (λ w. (ok (if c == 1 then codes "Lighthouse/v3" else codes "teku"), w + 1));
}

abbrev no_metrics : Metrics
no_metrics = record { providers_metric = none; provider_active_metric = none }

abbrev gauged : Metrics
gauged = record {
  providers_metric = some (record { active_total = 0; inactive_total = 0 });
  provider_active_metric = some [];
}

-- Nodes 3 and 1 are active, node 2 is not.
abbrev fleet : Service
fleet = record { active_clients = 3 ∷ 1 ∷ []; inactive_clients = 2 ∷ []; metrics = gauged }

abbrev asleep : Service
asleep = record { active_clients = []; inactive_clients = 2 ∷ 1 ∷ []; metrics = no_metrics }

-- Node 3 fails, and the others return 7.
abbrev lucky : Client → ℕ → Result ℕ × ℕ
lucky c w = if c == 3 then (err (codes "busy"), w + 1) else (ok 7, w + 1)

abbrev lucky_call : CallFunc nodes ℕ
lucky_call c w =
    if c == 3
    then (record { value = none; error = some (codes "busy") }, w + 1)
    else (record { value = some 7; error = none }, w + 1)

abbrev after_lucky : Service
after_lucky = deactivate_client node_address 3 fleet

-- The call moves on from node 3, which it deactivates, to node 1.
failover :
    do_call nodes lucky_call none fleet 0
    ≡ some (record { value = some 7; error = none }, after_lucky, 2)
unfolding do_call
failover = refl

failover_clients : after_lucky.active_clients ≡ 1 ∷ []
unfolding deactivate_client
failover_clients = refl

abbrev awake : Service
awake = activate_client node_address 1 (deactivate_client node_address 2 asleep)

-- With no active client the inactive ones are pinged first.
woken : recheck nodes asleep 0 ≡ some (awake, 2)
unfolding recheck ping
woken = refl

wake_up :
    do_call nodes lucky_call none asleep 0
    ≡ some (record { value = some 7; error = none }, awake, 3)
unfolding do_call recheck ping activate_client deactivate_client
wake_up = refl

-- A node that answers with a nil pointer to its state makes the recheck, and so the call, panic.
abbrev blind : Service
blind = record { active_clients = []; inactive_clients = 4 ∷ 1 ∷ []; metrics = no_metrics }

blind_panics : do_call nodes lucky_call none blind 0 ≡ none
unfolding do_call recheck ping
blind_panics = refl

run_moves-perm_example :
    Perm
      (clients (run_moves node_address (deactivate 3 ∷ activate 2 ∷ activate 3 ∷ []) fleet))
      (3 ∷ 1 ∷ 2 ∷ [])
run_moves-perm_example =
    run_moves-perm node_address (deactivate 3 ∷ activate 2 ∷ activate 3 ∷ []) fleet

gauges_after_moves :
    IsReported (deactivate_client node_address 3 fleet)
    × IsReported (activate_client node_address 3 fleet)
gauges_after_moves = moves-IsReported node_address 3 fleet

do_call-CallOutcome_example :
    Follows nodes lucky_call none (some (fleet, 0)) (do_call nodes lucky_call none fleet 0)
do_call-CallOutcome_example = do_call-CallOutcome nodes lucky_call none fleet 0

do_call-perm_example : Perm (clients awake) (2 ∷ 1 ∷ [])
do_call-perm_example = do_call-perm nodes lucky_call none asleep 0 wake_up

do_call-IsAnswered_example : IsAnswered nodes lucky_call (record { value = some 7; error = none })
do_call-IsAnswered_example = do_call-IsAnswered nodes lucky_call asleep 0 wake_up

-- Node 1 alone serves every call; node 3, which stands first, fails this one.
abbrev slow_call : CallFunc nodes ℕ
slow_call c w =
    if c == 1
    then (record { value = some w; error = none }, w + 1)
    else (record { value = none; error = some (codes "down") }, w + 1)

recheck-active_example : Settles nodes 1 (answers nodes (2 ∷ 1 ∷ []) 0) (recheck nodes asleep 0)
recheck-active_example = recheck-active nodes 1 asleep 0 refl

fetch_result : fetch nodes 0 lucky fleet 0 ≡ some (ok 7, after_lucky, 2)
unfolding fetch do_call
fetch_result = refl

fetch-Answers_example : AtCopy nodes fleet 0 (λ s1 w1. Answers nodes s1.active_clients lucky 7)
fetch-Answers_example = fetch-Answers nodes 0 lucky fleet 0 fetch_result

abbrev seven : Result ℕ
seven = ok 7

fetch_checked_result :
    fetch_checked nodes (λ v. v == 0) (codes "zero") lucky fleet 0
    ≡ some (some (ok 7), after_lucky, 2)
unfolding fetch_checked do_call
fetch_checked_result = refl

fetch_checked_sound_example :
    (some seven ≢ none)
    × ((a : ℕ)
        → some seven ≡ some (ok a)
        → ((a == 0) ≡ false)
          × AtCopy nodes fleet 0 (λ s1 w1. Answers nodes s1.active_clients lucky a))
fetch_checked_sound_example =
    fetch_checked_sound nodes (λ v. v == 0) (codes "zero") lucky fleet 0 fetch_checked_result

-- A node that does not know a block returns nil, and the node that knows it is not asked.
abbrev half_known : Client → ℕ → Result (Option ℕ) × ℕ
half_known c w = if c == 3 then (ok none, w + 1) else (ok (some 7), w + 1)

fetch_first_example : fetch nodes none half_known fleet 0 ≡ some (ok none, fleet, 1)
fetch_first_example = fetch_first nodes none half_known 3 (1 ∷ []) fleet 0 none 1 refl refl

-- A Lighthouse node that knows the attestation already is no reason for a failover.
abbrev known : Client → ℕ → Result (Unit {0}) × ℕ
known c w = (err (codes "PriorAttestationKnown"), w + 1)

submission_refused :
    submit_attestations nodes (λ (attestations : List ℕ). known) [] awake 0
    ≡ some (some (codes "PriorAttestationKnown"), awake, 2)
unfolding submit do_call attestations_err_handler provider_info activate_client deactivate_client
submission_refused = refl

-- A service is made from a client and two addresses, of which one gives no client.
abbrev given : List Parameter
given = with_clients (3 ∷ []) ∷ with_addresses (codes "one" ∷ codes "none" ∷ []) ∷ []

abbrev dial : ℤ → ℤ → Text → ℕ → Result ℕ × ℕ
dial level timeout a w =
    if text_eq a (codes "one") then (ok 1, w + 1) else (err (codes "refused"), w + 1)

abbrev made : Service
made = record { active_clients = 3 ∷ 1 ∷ []; inactive_clients = []; metrics = no_metrics }

new-made : new nodes dial (λ m. ok no_metrics) (pos 1) given 0 ≡ some (ok made, 4)
unfolding new parse_and_check_parameters ping
new-made = refl

new-Holds_example :
    (p : Parameters) × (parse_and_check_parameters (pos 1) given ≡ ok p) × Holds p made
new-Holds_example = new-Holds nodes dial (λ m. ok no_metrics) (pos 1) given 0 new-made

-- Node 3 takes no listener.
abbrev subscribe : Client → ℕ → Result (Unit {0}) × ℕ
subscribe c w = if c == 3 then (err (codes "busy"), w + 1) else (ok tt, w + 1)

events-perm_example : Perm (covered nodes (events nodes subscribe fleet 0).0) (3 ∷ 1 ∷ 2 ∷ [])
events-perm_example = events-perm nodes subscribe fleet 0

forwarded_once :
    length (handle_event nodes {Event = ℕ} (codes "one") 5 fleet)
      + length (handle_event nodes {Event = ℕ} (codes "three") 6 fleet)
    ≤ 1
forwarded_once = handle_event_exclusive nodes (codes "one") (codes "three") 5 6 fleet (ground arith)
