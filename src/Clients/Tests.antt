-- ===== src/Clients/Tests.antt =====
-- Wrappers over a client that knows the number of slots per epoch. The world is the time, and a rate
-- counts in hundredths.
use go_eth2_client.Prelude.{
  ℕ, ◌+◌, ◌-◌, ◌*◌, ◌<◌, codes, ok, err, returns, panics, Bool, true, false, ltb, List, [], ◌∷◌,
  some, ◌≡◌, refl, arith,
}
use go_eth2_client.Codec.Decimal.{format_uint}
use go_eth2_client.Clients.Methods.{
  Interface, interface_of, slots_per_epoch, slots_per_epoch_provider,
}
use go_eth2_client.Clients.Client.{Values, Client, Call}
use go_eth2_client.Clients.Erroring.{
  Random, erroring_implements, erroring_client, erroring_call, new_erroring,
}
use go_eth2_client.Clients.Sleepy.{
  Clock, Sleepy, millisecond, sleepy_implements, sleepy_client, sleepy_call, new_sleepy,
}
use go_eth2_client.Clients.Stacks.{
  Layer, erring, sleeping, stack, PassedOrFailed, stack-PassedOrFailed, new_sleepy_panics,
}

abbrev values : Values
values = record {
  BeaconCommittee = ℕ;
  SyncCommittee = ℕ;
  VersionedBeaconState = ℕ;
  ProposalPreparation = ℕ;
  SignedValidatorRegistration = ℕ;
  Validator = ℕ;
  EventHandlerFunc = ℕ;
}

abbrev random : Random
random = record {
  World = ℕ;
  Rate = ℕ;
  below = ltb;
  zero_rate = 0;
  one_rate = 100;
  print_rate = format_uint;
  seed = λ w. w;
  float64 = λ w. (50, w);
}

abbrev clock : Clock ℕ
clock = record {
  int63n = λ n w. (n - 1, w);
  time_sleep = λ d w. w + d;
  print_duration = format_uint;
}

abbrev answer : Call values ℕ
answer slots_per_epoch a w = (returns (ok 32), w + 1)
answer _ a w = (returns (err (codes "down")), w)

abbrev only_slots : Interface → Bool
only_slots slots_per_epoch_provider = true
only_slots _ = false

abbrev inner : Client values ℕ
inner = record {
  client_name = codes "inner";
  client_address = codes "node";
  implements = only_slots;
  call = answer;
}

abbrev layers : List (Layer random)
layers = erring 10 ∷ sleeping (2 * millisecond) (4 * millisecond) ∷ []

stacked_call :
    (stack values random clock layers inner).call slots_per_epoch tt 0 ≡ (returns (ok 32), 3000001)
unfolding erroring_client erroring_call sleepy_client sleepy_call sleepy_implements interface_of
stacked_call = refl

draws : (n : ℕ) (w : ℕ) → 0 < n → n - 1 < n
draws n w h = omega arith

stack-PassedOrFailed_example :
    PassedOrFailed values random clock inner slots_per_epoch tt layers 0
      ((stack values random clock layers inner).call slots_per_epoch tt 0)
unfolding interface_of erroring_implements sleepy_implements
stack-PassedOrFailed_example =
    stack-PassedOrFailed values random clock inner slots_per_epoch tt layers 0 draws
      (refl, refl, refl) (tt, (omega arith, tt))

refused_rate :
    (new_erroring values random 101 (some inner) 0).0
    ≡ err (codes "error rate cannot be more than 1")
unfolding new_erroring
refused_rate = refl

new_sleepy_panics_example :
    let s : Sleepy values random clock = record {
      min_sleep = 1500000;
      max_sleep = 1600000;
      next = inner;
    } in
    (new_sleepy values random clock 1500000 1600000 (some inner) 0 ≡ (ok s, 0))
    × (sleepy_call values random clock s slots_per_epoch tt 7 ≡ (panics, 7))
new_sleepy_panics_example =
    new_sleepy_panics values random clock 1500000 1600000 inner 0 slots_per_epoch tt 7 (omega arith)
      refl
