-- ===== src/Codec/Payload/Laws.antt =====
-- What is read of the fields of payloads has its range and its size, and what is written is read back.
use go_eth2_client.Prelude.{
  Gives, Gives-bind, Gives-wrapped, ℕ, ◌%◌, ◌^◌, ◌≤◌, ◌<◌, Text, Bytes, codes, Error, ok, returns,
  wrapped, true, false, ◌||◌, ltb, text_eq, has_prefix, trim_prefix, Option, none, some, List, [],
  ◌∷◌, length, map, All, ◌≡◌, ◌≢◌, refl, ap, subst, ◌∙◌, arith, Bool-cases, inl, inr,
}
use go_eth2_client.Codec.Decimal.{format_uint, is_digit}
use go_eth2_client.Codec.Decimal.RoundTrip.{format_uint-All}
use go_eth2_client.Codec.Hex.{format_hex, decode_hex, hex_digits}
use go_eth2_client.Codec.Hex.RoundTrip.{IsBytes, decode_hex-Gives, decode_hex-hex_digits}
use go_eth2_client.Codec.Big.{BigInt, set_string, set_bytes, to_bytes, stored}
use go_eth2_client.Codec.Big.RoundTrip.{
  stored-to_bytes, stored-IsBytes, length-stored, to_bytes-IsBytes, set_bytes_bound,
  length-to_bytes, set_string-format_uint,
}
use go_eth2_client.Codec.Fields.{read_bytes}
use go_eth2_client.Codec.Fields.Laws.{
  IsSized, read_bytes-Gives, read_bytes-format_hex, read_bytes_empty,
}
use go_eth2_client.Codec.Panics.{GivesAtEnd}
use go_eth2_client.Codec.Payload.{
  format_extra_data, evened, check_most, decode_extra_data, read_extra_data, read_header_extra_data,
  format_base_fee, store_base_fee, parse_base_fee, read_base_fee, read_each, read_transactions,
  max_base_fee_per_gas,
}

-- At most 32 bytes.
abbrev pub IsExtraData : Bytes → Type 0
IsExtraData bs = IsBytes bs × (length bs ≤ 32)

check_most-Gives : (e : Error) (bs : Bytes) → IsBytes bs → Gives IsExtraData (check_most 32 e bs)
check_most-Gives e bs h = elim (Bool-cases (ltb 32 (length bs))) [
  | inl long ↦ rw long tt
  | inr short ↦ rw short (h, ground arith)
]

decode_extra_data-Gives : (s : Text) → Gives IsExtraData (decode_extra_data s)
decode_extra_data-Gives s =
    let t = evened (trim_prefix (codes "0x") s) in
    let why = codes "invalid value for extra data" in
    Gives-bind IsExtraData IsBytes (wrapped why (decode_hex t)) _
      (Gives-wrapped IsBytes why (decode_hex t) (decode_hex-Gives t))
      (check_most-Gives (codes "incorrect length for extra data"))

pub read_extra_data-Gives : (s : Text) → Gives IsExtraData (read_extra_data s)
unfolding read_extra_data
read_extra_data-Gives [] = tt
read_extra_data-Gives (c ∷ s) =
    elim (Bool-cases (text_eq (c ∷ s) (codes "0x") || text_eq (c ∷ s) (codes "0"))) [
      | inl short ↦ rw short (tt, omega arith)
      | inr other ↦ rw other (decode_extra_data-Gives (c ∷ s))
    ]

length-hex_digits : (bs : Bytes) → length (hex_digits bs) % 2 ≡ 0
length-hex_digits [] = refl
length-hex_digits (b ∷ bs) = let h = length-hex_digits bs in omega arith

evened-hex_digits : (bs : Bytes) → evened (hex_digits bs) ≡ hex_digits bs
evened-hex_digits bs = let h = length-hex_digits bs in ground arith

decode_extra_data-format :
    (b : ℕ) (bs : Bytes)
    → IsExtraData (b ∷ bs)
    → decode_extra_data (format_hex (b ∷ bs)) ≡ ok (b ∷ bs)
unfolding format_hex
decode_extra_data-format b bs h =
    rw (evened-hex_digits (b ∷ bs), decode_hex-hex_digits (b ∷ bs) h.0) (ground arith)

pub read_extra_data-format_extra_data :
    (bs : Bytes) → IsExtraData bs → read_extra_data (format_extra_data bs) ≡ ok bs
unfolding read_extra_data format_extra_data format_hex
read_extra_data-format_extra_data [] h = refl
read_extra_data-format_extra_data (b ∷ bs) h = decode_extra_data-format b bs h

pub read_header_extra_data-Gives : (s : Text) → Gives IsExtraData (read_header_extra_data s)
unfolding read_header_extra_data
read_header_extra_data-Gives [] = tt
read_header_extra_data-Gives (c ∷ s) = elim (Bool-cases (text_eq (c ∷ s) (codes "0x"))) [
  | inl short ↦ rw short (tt, omega arith)
  | inr other ↦ rw other (decode_extra_data-Gives (c ∷ s))
]

pub read_header_extra_data-format_extra_data :
    (bs : Bytes) → IsExtraData bs → read_header_extra_data (format_extra_data bs) ≡ ok bs
unfolding read_header_extra_data format_extra_data format_hex
read_header_extra_data-format_extra_data [] h = refl
read_header_extra_data-format_extra_data (b ∷ bs) h = decode_extra_data-format b bs h

store_base_fee-Gives : (n : Option BigInt) → GivesAtEnd (IsSized 32) (store_base_fee n)
store_base_fee-Gives none = tt
store_base_fee-Gives (some n) = ground (
  arith,
  length-stored 32 (to_bytes n.magnitude),
  stored-IsBytes 32 (to_bytes n.magnitude) (to_bytes-IsBytes n.magnitude),
)

pub read_base_fee-Gives : (s : Text) → GivesAtEnd (IsSized 32) (read_base_fee s)
unfolding read_base_fee
read_base_fee-Gives [] = tt
read_base_fee-Gives (c ∷ s) = store_base_fee-Gives (parse_base_fee (c ∷ s))

not_prefixed : (s : Text) → All (λ c. is_digit c ≡ true) s → has_prefix (codes "0x") s ≡ false
not_prefixed [] h = refl
not_prefixed (c ∷ []) h = ground arith
not_prefixed (c ∷ d ∷ s) (h, (k, hs)) = ground arith

read_base_fee-text :
    (s : Text)
    → s ≢ []
    → has_prefix (codes "0x") s ≡ false
    → read_base_fee s ≡ store_base_fee (set_string 10 s)
unfolding read_base_fee
read_base_fee-text [] h k = absurd (h refl)
read_base_fee-text (c ∷ s) h k = rw k

not_over : (n : ℕ) → n < 256 ^ 32 → ltb max_base_fee_per_gas n ≡ false
not_over n h = ground arith

not_more : (n : ℕ) → n ≤ 32 → ltb 32 n ≡ false
not_more n h = ground arith

store_base_fee-set_bytes :
    (bs : Bytes)
    → IsSized 32 bs
    → store_base_fee (some (record { is_negative = false; magnitude = set_bytes bs }))
      ≡ returns (ok bs)
store_base_fee-set_bytes bs (n, h) = rw (
  not_over (set_bytes bs) (subst (λ k. set_bytes bs < 256 ^ k) n (set_bytes_bound bs h)),
  not_more (length (to_bytes (set_bytes bs)))
      (subst (λ k. length (to_bytes (set_bytes bs)) ≤ k) n (length-to_bytes bs h)),
  subst (λ k. stored k (to_bytes (set_bytes bs)) ≡ bs) n (stored-to_bytes bs h),
)

pub read_base_fee-format_base_fee :
    (bs : Bytes) → IsSized 32 bs → read_base_fee (format_base_fee bs) ≡ returns (ok bs)
unfolding format_base_fee
read_base_fee-format_base_fee bs h =
    let n = set_bytes bs in
    let (some_digits, all_digits) = format_uint-All n in
    read_base_fee-text (format_uint n) some_digits (not_prefixed (format_uint n) all_digits)
    ∙ ap store_base_fee (set_string-format_uint n)
    ∙ store_base_fee-set_bytes bs h

read_each-Gives : (ss : List Text) → Gives (All IsBytes) (read_each ss)
unfolding read_each
read_each-Gives [] = tt
read_each-Gives (s ∷ ss) =
    let missed = codes "transaction missing" in
    let why = codes "invalid value for transaction" in
    Gives-bind (All IsBytes) IsBytes (read_bytes missed why s) _ (read_bytes-Gives missed why s)
      (λ bs h.
        Gives-bind (All IsBytes) (All IsBytes) (read_each ss) _ (read_each-Gives ss)
          (λ rest hs. (h, hs)))

pub read_transactions-Gives : (ss : Option (List Text)) → Gives (All IsBytes) (read_transactions ss)
unfolding read_transactions
read_transactions-Gives none = tt
read_transactions-Gives (some ss) = read_each-Gives ss

-- A transaction with no bytes is written as the empty text, which is refused.
abbrev pub IsNotEmpty : Bytes → Type 0
IsNotEmpty bs = bs ≢ []

pub read_transactions-map :
    (ts : List Bytes)
    → All IsBytes ts
    → All IsNotEmpty ts
    → read_transactions (some (map format_hex ts)) ≡ ok ts
unfolding read_transactions read_each
read_transactions-map [] h k = refl
read_transactions-map (t ∷ ts) (h, hs) (k, ks) = rw (
  read_bytes-format_hex (codes "transaction missing") (codes "invalid value for transaction") t h k,
  read_transactions-map ts hs ks,
)

pub read_transactions_lost :
    (ts : List Bytes)
    → Gives (λ us. All IsNotEmpty ts) (read_transactions (some (map format_hex ts)))
unfolding read_transactions read_each
read_transactions_lost [] = tt
read_transactions_lost ([] ∷ ts) =
    rw
      (read_bytes_empty (codes "transaction missing") (codes "invalid value for transaction") []
        refl)
      tt
read_transactions_lost ((b ∷ bs) ∷ ts) =
    let missed = codes "transaction missing" in
    let why = codes "invalid value for transaction" in
    let s = format_hex (b ∷ bs) in
    Gives-bind (λ us. All IsNotEmpty ((b ∷ bs) ∷ ts)) IsBytes (read_bytes missed why s) _
      (read_bytes-Gives missed why s)
      (λ us h.
        Gives-bind (λ us. All IsNotEmpty ((b ∷ bs) ∷ ts)) (λ us. All IsNotEmpty ts)
          (read_each (map format_hex ts)) _ (read_transactions_lost ts) (λ rest hs. (λ k. cc, hs)))
