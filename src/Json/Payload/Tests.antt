-- ===== src/Json/Payload/Tests.antt =====
-- An execution payload with one transaction, and base fees that are negative.
use go_eth2_client.Prelude.{codes, ok, returns, panics, none, [], ◌∷◌, ◌++◌, replicate, ◌≡◌, refl}
use go_eth2_client.Codec.Big.{set_string, magnitude_of, scan_big, to_bytes, bytes_loop, stored}
use go_eth2_client.Codec.Payload.{read_base_fee}
use go_eth2_client.Spec.Blocks.{ExecutionPayload, CapellaPayload}

abbrev pub payload_sample : ExecutionPayload
payload_sample = record {
  parent_hash = replicate 32 1;
  fee_recipient = replicate 20 2;
  state_root = replicate 32 3;
  receipts_root = replicate 32 4;
  logs_bloom = replicate 256 0;
  prev_randao = replicate 32 5;
  block_number = 7;
  gas_limit = 30000000;
  gas_used = 21000;
  timestamp = 1680000000;
  extra_data = 9 ∷ [];
  base_fee_per_gas = 7 ∷ replicate 31 0;
  block_hash = replicate 32 6;
  transactions = (1 ∷ 2 ∷ []) ∷ [];
}

abbrev pub capella_sample : CapellaPayload
capella_sample = record { payload = payload_sample; withdrawals = none ∷ [] }

-- The sign is dropped.
negative_fee : read_base_fee (codes "-5") ≡ returns (ok (5 ∷ replicate 31 0))
unfolding read_base_fee set_string magnitude_of scan_big to_bytes bytes_loop stored
negative_fee = refl

-- The test for an overflow lets a negative fee pass, whose 33 bytes do not fit.
negative_overflow : read_base_fee (codes "0x-1" ++ replicate 64 b'0') ≡ panics
unfolding read_base_fee set_string magnitude_of scan_big to_bytes bytes_loop
negative_overflow = refl
