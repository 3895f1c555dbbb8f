-- ===== src/Codec/Big.antt =====
-- `big.Int` as the code uses it: `SetString`, `String`, `SetBytes` and `Bytes`.
pub mod RoundTrip
use go_eth2_client.Prelude.{
  ℕ, zero, suc, ◌+◌, ◌-◌, ◌*◌, ◌/◌, ◌%◌, ◌==◌, Text, Bytes, Bool, true, false, not, ◌&&◌, ltb,
  Option, none, some, List, [], ◌∷◌, if◌then◌else◌,
}
use go_eth2_client.Codec.Hex.{hex_value}

-- A `big.Int`; zero is not negative.
pub record BigInt : Type 0 where
  pub is_negative : Bool
  pub magnitude : ℕ

-- The digits of a number in a base of 16 at most.
unfoldable pub scan_big : ℕ → Text → ℕ → Option ℕ
scan_big base [] n = some n
scan_big base (c ∷ s) n = elim (hex_value c) [
  | none ↦ none
  | some d ↦ let rest = scan_big base s (n * base + d) in if ltb d base then rest else none
]

-- One digit at least.
unfoldable pub magnitude_of : ℕ → Text → Option ℕ
unfolding scan_big
magnitude_of base [] = none
magnitude_of base (c ∷ s) = scan_big base (c ∷ s) 0

abbrev pub signed : Bool → Option ℕ → Option BigInt
signed negative none = none
signed negative (some n) = some (record { is_negative = negative && not (n == 0); magnitude = n })

-- `SetString(s, base)`; none where it is not ok.
unfoldable pub set_string : ℕ → Text → Option BigInt
unfolding magnitude_of
set_string base [] = none
set_string base (c ∷ s) =
    if c == b'-'
    then signed true (magnitude_of base s)
    else if c == b'+'
    then signed false (magnitude_of base s)
    else signed false (magnitude_of base (c ∷ s))

-- `SetBytes` of the bytes the other way round.
unfoldable pub set_bytes : Bytes → ℕ
set_bytes [] = 0
set_bytes (b ∷ bs) = b + 256 * set_bytes bs

-- `Bytes` the other way round: no byte for zero, and no zero at the end. The fuel is the number's
-- successor, and each byte makes the number smaller.
unfoldable pub bytes_loop : ℕ → ℕ → Bytes
bytes_loop zero n = []
bytes_loop (suc fuel) n =
    let rest = bytes_loop fuel (n / 256) in if n == 0 then [] else n % 256 ∷ rest

unfoldable pub to_bytes : ℕ → Bytes
unfolding bytes_loop
to_bytes n = bytes_loop (suc n) n

-- The first bytes of an array of zeros are set.
unfoldable pub stored : ℕ → Bytes → Bytes
stored zero bs = []
stored (suc n) [] = 0 ∷ stored n []
stored (suc n) (b ∷ bs) = b ∷ stored n bs
