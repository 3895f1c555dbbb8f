-- ===== src/Codec/Hex/RoundTrip.antt =====
-- Printed bytes are read back, and what is read has half as many bytes as digits.
use go_eth2_client.Prelude.{
  Gives, Result, err, Option, none, Text, codes, trim_prefix, ℕ, ◌/◌, ◌%◌, ◌<◌, Bytes, ok, some, [],
  ◌∷◌, ◌≡◌, refl, ap, arith, All,
}
use go_eth2_client.Codec.Hex.{
  push_byte, last_digit, hex_digit, hex_digits, format_hex, hex_value, decode_hex, decode_0x,
}

abbrev pub IsBytes : Bytes → Type 0
IsBytes = All (λ b. b < 256)

hex_value-hex_digit : (d : ℕ) → d < 16 → hex_value (hex_digit d) ≡ some d
hex_value-hex_digit d h = ground arith

pub decode_hex-hex_digits : (bs : Bytes) → IsBytes bs → decode_hex (hex_digits bs) ≡ ok bs
unfolding decode_hex
decode_hex-hex_digits [] h = refl
decode_hex-hex_digits (b ∷ bs) (hb, hs) =
    rw
      (
        hex_value-hex_digit (b / 16) (omega arith),
        hex_value-hex_digit (b % 16) (omega arith),
        decode_hex-hex_digits bs hs,
      )
      (ap (λ (c : ℕ). ok (c ∷ bs)) (omega arith))

-- Bytes are read back from their hexadecimal text.
pub decode_0x-format_hex : (bs : Bytes) → IsBytes bs → decode_0x (format_hex bs) ≡ ok bs
unfolding decode_0x format_hex
decode_0x-format_hex [] h = refl
decode_0x-format_hex (b ∷ bs) h = decode_hex-hex_digits (b ∷ bs) h

abbrev IsDigit : Option ℕ → Type 0
IsDigit none = Unit
IsDigit (some d) = d < 16

hex_value-IsDigit : (c : ℕ) → IsDigit (hex_value c)
hex_value-IsDigit c = ground arith

push_byte-Gives :
    (h l : Option ℕ) (rest : Result Bytes)
    → IsDigit h
    → IsDigit l
    → Gives IsBytes rest
    → Gives IsBytes (push_byte h l rest)
push_byte-Gives none l rest a b g = tt
push_byte-Gives (some h) none rest a b g = tt
push_byte-Gives (some h) (some l) (err e) a b g = tt
push_byte-Gives (some h) (some l) (ok bs) a b g = (omega arith, g)

last_digit-Gives : (h : Option ℕ) → Gives IsBytes (last_digit h)
last_digit-Gives none = tt
last_digit-Gives (some h) = tt

pub decode_hex-Gives : (s : Text) → Gives IsBytes (decode_hex s)
unfolding decode_hex
decode_hex-Gives [] = tt
decode_hex-Gives (c ∷ []) = last_digit-Gives (hex_value c)
decode_hex-Gives (c ∷ d ∷ s) =
    push_byte-Gives (hex_value c) (hex_value d) (decode_hex s) (hex_value-IsDigit c)
      (hex_value-IsDigit d) (decode_hex-Gives s)

-- What is read are bytes.
pub decode_0x-Gives : (s : Text) → Gives IsBytes (decode_0x s)
unfolding decode_0x
decode_0x-Gives s = decode_hex-Gives (trim_prefix (codes "0x") s)
