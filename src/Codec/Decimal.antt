-- ===== src/Codec/Decimal.antt =====
-- `fmt.Sprintf("%d", n)` and `strconv.ParseUint(s, 10, 64)`.
pub mod RoundTrip
use go_eth2_client.Prelude.{
  ℕ, zero, suc, ◌+◌, ◌-◌, ◌*◌, ◌/◌, ◌%◌, ◌^◌, Text, codes, Error, Result, ok, err, Bool, true,
  false, ◌&&◌, ltb, leb, Option, none, some, List, [], ◌∷◌, ◌++◌, if◌then◌else◌, u64_mod,
}

-- The digits of `n`, with fuel that bounds how many there are.
digits : ℕ → ℕ → Text
digits zero n = []
digits (suc fuel) n =
    let rest = digits fuel (n / 10) in
    if ltb n 10 then (b'0' + n) ∷ [] else rest ++ (b'0' + n % 10) ∷ []

-- A number has fewer digits than its successor says.
unfoldable pub format_uint : ℕ → Text
unfolding digits
format_uint n = digits (suc n) n

abbrev pub is_digit : ℕ → Bool
is_digit c = leb b'0' c && leb c b'9'

-- Why a text is no number: it has another character than a digit, or its value is too large.
pub data ParseError : Type 0 where
  syntax range : ParseError

pub data Parsed : Type 0 where
  number : ℕ → Parsed
  refused : ParseError → Parsed

scan : Text → ℕ → Parsed
scan [] n = number n
scan (c ∷ s) n =
    let rest = scan s (n * 10 + (c - b'0')) in
    if is_digit c
    then if ltb (n * 10 + (c - b'0')) u64_mod then rest else refused range
    else refused syntax

abbrev parse_text : Text → ParseError → Error
parse_text s syntax = codes "strconv.ParseUint: parsing \"" ++ s ++ codes "\": invalid syntax"
parse_text s range = codes "strconv.ParseUint: parsing \"" ++ s ++ codes "\": value out of range"

abbrev parsed : Text → Parsed → Result ℕ
parsed s (number n) = ok n
parsed s (refused e) = err (parse_text s e)

unfoldable pub parse_uint : Text → Result ℕ
unfolding scan
parse_uint [] = err (parse_text [] syntax)
parse_uint (c ∷ s) = parsed (c ∷ s) (scan (c ∷ s) 0)
