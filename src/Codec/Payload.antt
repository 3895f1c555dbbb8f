-- ===== src/Codec/Payload.antt =====
-- How spec/bellatrix and spec/capella write and read the extra data, the base fee and the transactions
-- of an execution payload or of its header.
pub mod Laws
use go_eth2_client.Prelude.{
  ℕ, ◌%◌, ◌^◌, ◌-◌, Text, Bytes, codes, Error, Result, ok, err, Ending, returns, panics, wrapped,
  Bool, true, false, not, ◌&&◌, ◌||◌, ltb, ◌==◌, text_eq, has_prefix, trim_prefix, Option, none,
  some, List, [], ◌∷◌, length, if◌then◌else◌, ◌>>=◌,
}
use go_eth2_client.Codec.Decimal.{format_uint}
use go_eth2_client.Codec.Hex.{format_hex, decode_hex}
use go_eth2_client.Codec.Big.{BigInt, set_string, set_bytes, to_bytes, stored}
use go_eth2_client.Codec.Fields.{read_bytes}

-- The shortest bytes are written as "0x".
unfoldable pub format_extra_data : Bytes → Text
format_extra_data [] = codes "0x"
format_extra_data (b ∷ bs) = format_hex (b ∷ bs)

-- A digit is put before an odd number of them.
abbrev pub evened : Text → Text
evened s = if length s % 2 == 1 then b'0' ∷ s else s

abbrev pub check_most : ℕ → Error → Bytes → Result Bytes
check_most size e bs = if ltb size (length bs) then err e else ok bs

abbrev pub decode_extra_data : Text → Result Bytes
decode_extra_data s =
    wrapped (codes "invalid value for extra data")
      (decode_hex (evened (trim_prefix (codes "0x") s)))
    >>= check_most 32 (codes "incorrect length for extra data")

unfoldable pub read_extra_data : Text → Result Bytes
read_extra_data [] = err (codes "extra data missing")
read_extra_data (c ∷ s) =
    if text_eq (c ∷ s) (codes "0x") || text_eq (c ∷ s) (codes "0")
    then ok []
    else decode_extra_data (c ∷ s)

-- That of a header, where "0" is no special case.
unfoldable pub read_header_extra_data : Text → Result Bytes
read_header_extra_data [] = err (codes "extra data missing")
read_header_extra_data (c ∷ s) =
    if text_eq (c ∷ s) (codes "0x") then ok [] else decode_extra_data (c ∷ s)

-- The fee is stored with its lowest byte first.
unfoldable pub format_base_fee : Bytes → Text
format_base_fee bs = format_uint (set_bytes bs)

abbrev pub max_base_fee_per_gas : ℕ
max_base_fee_per_gas = 256 ^ 32 - 1

-- The bytes of the magnitude are stored in an array of 32, whatever the sign; a further byte is out
-- of its range.
abbrev pub store_base_fee : Option BigInt → Ending Bytes
store_base_fee none = returns (err (codes "invalid value for base fee per gas"))
store_base_fee (some n) =
    if not n.is_negative && ltb max_base_fee_per_gas n.magnitude
    then returns (err (codes "overflow for base fee per gas"))
    else if ltb 32 (length (to_bytes n.magnitude))
    then panics
    else returns (ok (stored 32 (to_bytes n.magnitude)))

-- The test for an odd length is that of the text with its prefix.
abbrev pub parse_base_fee : Text → Option BigInt
parse_base_fee s =
    if has_prefix (codes "0x") s
    then set_string 16 (
        if length s % 2 == 1 then b'0' ∷ trim_prefix (codes "0x") s else trim_prefix (codes "0x") s)
    else set_string 10 s

unfoldable pub read_base_fee : Text → Ending Bytes
read_base_fee [] = returns (err (codes "base fee per gas missing"))
read_base_fee (c ∷ s) = store_base_fee (parse_base_fee (c ∷ s))

unfoldable pub read_each : List Text → Result (List Bytes)
read_each [] = ok []
read_each (s ∷ ss) =
    read_bytes (codes "transaction missing") (codes "invalid value for transaction") s >>= λ bs.
    read_each ss >>= λ rest. ok (bs ∷ rest)

unfoldable pub read_transactions : Option (List Text) → Result (List Bytes)
unfolding read_each
read_transactions none = err (codes "transactions missing")
read_transactions (some ss) = read_each ss
