-- ===== src/Codec/Hex.antt =====
-- `fmt.Sprintf("%#x", bytes)`, and `hex.DecodeString(strings.TrimPrefix(s, "0x"))`.
pub mod RoundTrip
use go_eth2_client.Prelude.{
  ℕ, zero, suc, ◌+◌, ◌-◌, ◌*◌, ◌/◌, ◌%◌, Text, Bytes, codes, Error, Result, ok, err, Bool, true,
  false, ◌&&◌, ltb, leb, Option, none, some, List, [], ◌∷◌, ◌++◌, if◌then◌else◌, trim_prefix, ◌>>=◌,
}

-- The digit for a value below 16.
abbrev pub hex_digit : ℕ → ℕ
hex_digit d = if ltb d 10 then b'0' + d else b'a' + (d - 10)

abbrev pub hex_digits : Bytes → Text
hex_digits [] = []
hex_digits (b ∷ bs) = hex_digit (b / 16) ∷ hex_digit (b % 16) ∷ hex_digits bs

-- `%#x` writes nothing for no bytes.
unfoldable pub format_hex : Bytes → Text
format_hex [] = []
format_hex (b ∷ bs) = b'0' ∷ b'x' ∷ hex_digits (b ∷ bs)

-- The value of a digit, in either case.
abbrev pub hex_value : ℕ → Option ℕ
hex_value c =
    if leb b'0' c && leb c b'9'
    then some (c - b'0')
    else if leb b'a' c && leb c b'f'
    then some (c - b'a' + 10)
    else if leb b'A' c && leb c b'F'
    then some (c - b'A' + 10)
    else none

-- The message of Go goes on with the byte.
abbrev pub invalid_byte : Error
invalid_byte = codes "encoding/hex: invalid byte"

abbrev pub odd_length : Error
odd_length = codes "encoding/hex: odd length hex string"

abbrev push_byte : Option ℕ → Option ℕ → Result Bytes → Result Bytes
push_byte none low rest = err invalid_byte
push_byte (some h) none rest = err invalid_byte
push_byte (some h) (some l) (err e) = err e
push_byte (some h) (some l) (ok bs) = ok ((h * 16 + l) ∷ bs)

abbrev last_digit : Option ℕ → Result Bytes
last_digit none = err invalid_byte
last_digit (some h) = err odd_length

-- `hex.DecodeString`.
unfoldable pub decode_hex : Text → Result Bytes
decode_hex [] = ok []
decode_hex (c ∷ []) = last_digit (hex_value c)
decode_hex (c ∷ d ∷ s) = push_byte (hex_value c) (hex_value d) (decode_hex s)

unfoldable pub decode_0x : Text → Result Bytes
unfolding decode_hex
decode_0x s = decode_hex (trim_prefix (codes "0x") s)
