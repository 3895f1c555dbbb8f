-- ===== src/Codec/Tests.antt =====
-- Numbers and bytes, printed and read.
use go_eth2_client.Prelude.{codes, ok, [], ◌∷◌, ◌≡◌, refl, arith}
use go_eth2_client.Codec.Decimal.{format_uint, parse_uint}
use go_eth2_client.Codec.Decimal.RoundTrip.{parse_uint-format_uint}
use go_eth2_client.Codec.Hex.{format_hex, decode_0x}
use go_eth2_client.Codec.Hex.RoundTrip.{decode_0x-format_hex}

printed_number : format_uint 1805 ≡ codes "1805"
unfolding format_uint
printed_number = refl

printed_bytes : format_hex (0 ∷ 175 ∷ []) ≡ codes "0x00af"
unfolding format_hex
printed_bytes = refl

parse_uint-format_uint_example : parse_uint (format_uint 1805) ≡ ok 1805
parse_uint-format_uint_example = parse_uint-format_uint 1805 (omega arith)

decode_0x-format_hex_example : decode_0x (format_hex (0 ∷ 175 ∷ [])) ≡ ok (0 ∷ 175 ∷ [])
decode_0x-format_hex_example = decode_0x-format_hex (0 ∷ 175 ∷ []) (omega arith, (omega arith, tt))
