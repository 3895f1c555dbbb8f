-- ===== src/Json/PayloadHeader/Tests.antt =====
-- A header of an execution payload.
use go_eth2_client.Prelude.{codes, ok, [], ◌∷◌, replicate, ◌≡◌, refl}
use go_eth2_client.Codec.Hex.{decode_hex}
use go_eth2_client.Codec.Payload.{read_extra_data, read_header_extra_data}
use go_eth2_client.Api.Blinded.{ExecutionPayloadHeader, CapellaHeader}

abbrev pub payload_header_sample : ExecutionPayloadHeader
payload_header_sample = record {
  parent_hash = replicate 32 1;
  fee_recipient = replicate 20 1;
  state_root = replicate 32 1;
  receipts_root = replicate 32 1;
  logs_bloom = replicate 256 1;
  prev_randao = replicate 32 1;
  block_number = 7;
  gas_limit = 30000000;
  gas_used = 21000;
  timestamp = 1680000000;
  extra_data = [];
  base_fee_per_gas = 7 ∷ replicate 31 255;
  block_hash = replicate 32 1;
  transactions_root = replicate 32 1;
}

abbrev pub capella_header_sample : CapellaHeader
capella_header_sample = record { common = payload_header_sample; withdrawals_root = replicate 32 2 }

-- The extra data "0" is none in a payload and a zero byte in a header.
zero_differs :
    (read_extra_data (codes "0") ≡ ok []) × (read_header_extra_data (codes "0") ≡ ok (0 ∷ []))
unfolding read_extra_data read_header_extra_data decode_hex
zero_differs = (refl, refl)
