-- ===== src/Clients/Sleepy.antt =====
-- testclients/sleepy.go: a client that sleeps before each call. A duration is a number of nanoseconds,
-- which is not negative.
use go_eth2_client.Prelude.{
  ℕ, ◌+◌, ◌-◌, ◌*◌, ◌/◌, Text, codes, Result, ok, err, panics, Bool, true, false, Option, none,
  some, ltb, ◌==◌, ◌++◌, if◌then◌else◌,
}
use go_eth2_client.Clients.Methods.{
  Interface, validator_index_provider, validator_pubkey_provider, deposit_contract_provider,
  signed_beacon_block_provider, beacon_committees_provider, sync_committees_provider,
  sync_committee_duties_provider, sync_committee_messages_submitter,
  sync_committee_subscriptions_submitter, sync_committee_contribution_provider,
  sync_committee_contributions_submitter, bls_to_execution_changes_submitter,
  beacon_block_root_provider, beacon_state_randao_provider, beacon_state_root_provider,
  blinded_beacon_block_proposal_provider, sync_state_provider, node_client_provider,
}
use go_eth2_client.Clients.Client.{Values, Client, Call}
use go_eth2_client.Clients.Erroring.{Random, through}

-- `rand.Int63n`, which panics on 0, `time.Sleep`, and the text of a duration.
pub record Clock (World : Type 0) : Type 0 where
  pub int63n : ℕ → World → ℕ × World
  pub time_sleep : ℕ → World → World
  pub print_duration : ℕ → Text

abbrev pub millisecond : ℕ
millisecond = 1000000

-- The interfaces whose methods `Sleepy` has.
unfoldable pub sleepy_implements : Interface → Bool
sleepy_implements validator_index_provider = false
sleepy_implements validator_pubkey_provider = false
sleepy_implements deposit_contract_provider = false
sleepy_implements signed_beacon_block_provider = false
sleepy_implements beacon_committees_provider = false
sleepy_implements sync_committees_provider = false
sleepy_implements sync_committee_duties_provider = false
sleepy_implements sync_committee_messages_submitter = false
sleepy_implements sync_committee_subscriptions_submitter = false
sleepy_implements sync_committee_contribution_provider = false
sleepy_implements sync_committee_contributions_submitter = false
sleepy_implements bls_to_execution_changes_submitter = false
sleepy_implements beacon_block_root_provider = false
sleepy_implements beacon_state_randao_provider = false
sleepy_implements beacon_state_root_provider = false
sleepy_implements blinded_beacon_block_proposal_provider = false
sleepy_implements sync_state_provider = false
sleepy_implements node_client_provider = false
sleepy_implements _ = true

module _ (v : Values) (random : Random) (clock : Clock random.World) where
  open random use {World, seed}
  open clock use {int63n, time_sleep, print_duration}

  pub record Sleepy : Type 0 where
    pub min_sleep : ℕ
    pub max_sleep : ℕ
    pub next : Client v World

  -- The argument of `rand.Int63n`; a difference that is negative is 0 here, where it panics too.
  abbrev pub spread : Sleepy → ℕ
  spread s = s.max_sleep / millisecond - s.min_sleep / millisecond

  -- The rest of `sleep` once the number is drawn.
  abbrev pub slept : Sleepy → ℕ × World → World
  slept s (r, w) = time_sleep ((s.min_sleep / millisecond + r) * millisecond) w

  -- Each of the methods.
  unfoldable pub sleepy_call : Sleepy → Call v World
  sleepy_call s m a w =
      if spread s == 0
      then (panics, w)
      else through v World s.next (codes "next does not support this call") m a
          (slept s (int63n (spread s) w))

  abbrev bounds_of : Sleepy → Text
  bounds_of s = print_duration s.min_sleep ++ codes "," ++ print_duration s.max_sleep ++ codes ","

  unfoldable pub sleepy_client : Sleepy → Client v World
  unfolding sleepy_call
  sleepy_client s = record {
    client_name = codes "sleepy(" ++ bounds_of s ++ s.next.client_name ++ codes ")";
    client_address = codes "sleepy:" ++ bounds_of s ++ s.next.client_address;
    implements = sleepy_implements;
    call = sleepy_call s;
  }

  unfoldable pub new_sleepy : ℕ → ℕ → Option (Client v World) → World → Result Sleepy × World
  new_sleepy min_sleep max_sleep none w = (err (codes "no next service supplied"), w)
  new_sleepy min_sleep max_sleep (some next) w =
      if ltb max_sleep min_sleep
      then (err (codes "max sleep less than min sleep"), w)
      else (ok (record { min_sleep = min_sleep; max_sleep = max_sleep; next = next }), seed w)
