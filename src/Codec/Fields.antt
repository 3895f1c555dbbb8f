-- ===== src/Codec/Fields.antt =====
-- How the `UnmarshalJSON` and `unpack` methods of spec/ and api/v1/ read a field. `encoding/json` has
-- filled a structure of texts before; an absent field is the empty text there.
pub mod Laws
use go_eth2_client.Prelude.{
  ℕ, Text, Bytes, codes, Error, Result, ok, err, wrapped, Option, none, some, List, [], ◌∷◌, ◌++◌,
  length, ltb, ◌==◌, if◌then◌else◌, ◌>>=◌,
}
use go_eth2_client.Codec.Decimal.{format_uint, parse_uint}
use go_eth2_client.Codec.Hex.{decode_0x}

-- The errors for a field that is there but no number, or no bytes.
abbrev pub invalid : Text → Text
invalid label = codes "invalid value for " ++ label

abbrev pub missing : Text → Error
missing label = label ++ codes " missing"

-- `if data.F == "" { … }` and `strconv.ParseUint(data.F, 10, 64)`.
unfoldable pub read_uint : Text → Text → Result ℕ
read_uint label [] = err (missing label)
read_uint label (c ∷ s) = wrapped (invalid label) (parse_uint (c ∷ s))

-- The same for bytes of any number; `absent` and `why` are the errors.
unfoldable pub read_bytes : Error → Text → Text → Result Bytes
read_bytes absent why [] = err absent
read_bytes absent why (c ∷ s) = wrapped why (decode_0x (c ∷ s))

-- Whether the number of bytes is right, with the error for a wrong one.
unfoldable pub check_size : ℕ → (ℕ → Error) → Bytes → Result Bytes
check_size size wrong bs = if length bs == size then ok bs else err (wrong (length bs))

-- `errors.New("incorrect length for …")`, and `fmt.Errorf("incorrect length %d for …", …)`.
abbrev pub wrong_length : Text → ℕ → Error
wrong_length label n = codes "incorrect length for " ++ label

abbrev pub wrong_length_of : Text → ℕ → Error
wrong_length_of label n = codes "incorrect length " ++ format_uint n ++ codes " for " ++ label

unfoldable pub read_sized : ℕ → (ℕ → Error) → Text → Text → Result Bytes
unfolding read_bytes check_size
read_sized size wrong label s =
    read_bytes (missing label) (invalid label) s >>= check_size size wrong

-- `if data.F == nil { … }`.
unfoldable pub need : {A : Type 0} → Error → Option A → Result (Option A)
need e none = err e
need e (some a) = ok (some a)

-- What `encoding/json` does for a field that is a pointer, before the checks of the type that holds
-- it: null is a nil pointer, all else is read by the method of the type pointed to.
unfoldable pub nested : {J A : Type 0} → (J → Result A) → Option J → Result (Option A)
nested unmarshal none = ok none
nested unmarshal (some j) = wrapped (codes "invalid JSON") (unmarshal j) >>= λ a. ok (some a)

-- The other way: a nil pointer is written as null.
unfoldable pub written : {A J : Type 0} → (A → J) → Option A → Option J
written marshal none = none
written marshal (some a) = some (marshal a)

-- `if x == 0 { … }`.
unfoldable pub nonzero : Error → ℕ → Result ℕ
nonzero e n = if n == 0 then err e else ok n

-- A loop that reads one number for each text; an empty text is no number.
unfoldable pub read_uints : Text → List Text → Result (List ℕ)
read_uints why [] = ok []
read_uints why (s ∷ ss) =
    wrapped why (parse_uint s) >>= λ n. read_uints why ss >>= λ ns. ok (n ∷ ns)

-- A number that is not zero.
unfoldable pub read_positive : Text → Text → Result ℕ
read_positive label s = read_uint label s >>= nonzero (label ++ codes " cannot be 0")

-- Where no test for an empty text comes first.
unfoldable pub decode_sized : ℕ → (ℕ → Error) → Text → Text → Result Bytes
unfolding check_size
decode_sized size wrong label s = wrapped (invalid label) (decode_0x s) >>= check_size size wrong

-- Where too few bytes and too many have an error each.
abbrev pub short_or_long : ℕ → Error → Error → ℕ → Error
short_or_long size short long n = if ltb n size then short else long

-- `if len(data.F) == 0 { … }` before the loop.
unfoldable pub read_some_uints : Error → Text → List Text → Result (List ℕ)
read_some_uints absent why [] = err absent
read_some_uints absent why (s ∷ ss) = read_uints why (s ∷ ss)

-- An array of bytes, with either error for a wrong length.
abbrev pub read_array : ℕ → Text → Text → Result Bytes
read_array size label = read_sized size (wrong_length label) label

abbrev pub read_array_of : ℕ → Text → Text → Result Bytes
read_array_of size label = read_sized size (wrong_length_of label) label

abbrev pub decode_array : ℕ → Text → Text → Result Bytes
decode_array size label = decode_sized size (wrong_length label) label

abbrev pub decode_array_of : ℕ → Text → Text → Result Bytes
decode_array_of size label = decode_sized size (wrong_length_of label) label
