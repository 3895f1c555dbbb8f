-- ===== src/Codec/Fields/Laws.antt =====
-- What is read has its range and its size, and what is written is read back.
use go_eth2_client.Prelude.{
  Gives-both, Gives-ok, ◌↔◌, Gives, Gives-wrapped, Gives-bind, Bool-cases, ==_iff, inl, inr, ℕ, ◌<◌,
  suc, Text, Bytes, codes, Error, Result, ok, err, wrapped, Option, none, some, List, [], ◌∷◌, ◌++◌,
  length, map, ◌==◌, ◌≡◌, ◌≢◌, refl, arith, All, u64_mod, ap, sym, ◌>>=◌,
}
use go_eth2_client.Codec.Decimal.{format_uint, parse_uint}
use go_eth2_client.Codec.Decimal.RoundTrip.{
  parse_uint-format_uint, format_uint-All, parse_uint-Gives,
}
use go_eth2_client.Codec.Hex.{format_hex, decode_0x}
use go_eth2_client.Codec.Hex.RoundTrip.{IsBytes, decode_0x-format_hex, decode_0x-Gives}
use go_eth2_client.Codec.Fields.{
  invalid, missing, read_uint, read_bytes, check_size, read_sized, need, nested, written, nonzero,
  read_uints, read_positive, decode_sized, read_some_uints, wrong_length, wrong_length_of,
  read_array, read_array_of, decode_array, decode_array_of,
}

-- An array of `n` bytes.
abbrev pub IsSized : ℕ → Bytes → Type 0
IsSized n bs = (length bs ≡ n) × IsBytes bs

abbrev pub IsUint : ℕ → Type 0
IsUint n = n < u64_mod

pub read_uint-Gives : (label s : Text) → Gives IsUint (read_uint label s)
unfolding read_uint
read_uint-Gives label [] = tt
read_uint-Gives label (c ∷ s) =
    Gives-wrapped IsUint (invalid label) (parse_uint (c ∷ s)) (parse_uint-Gives (c ∷ s))

pub read_bytes-Gives : (absent why s : Text) → Gives IsBytes (read_bytes absent why s)
unfolding read_bytes
read_bytes-Gives absent why [] = tt
read_bytes-Gives absent why (c ∷ s) =
    Gives-wrapped IsBytes why (decode_0x (c ∷ s)) (decode_0x-Gives (c ∷ s))

check_size-Gives :
    (size : ℕ) (wrong : ℕ → Error) (bs : Bytes)
    → IsBytes bs
    → Gives (IsSized size) (check_size size wrong bs)
unfolding check_size
check_size-Gives size wrong bs h = elim (Bool-cases (length bs == size)) [
  | inl same ↦ rw same ((==_iff _ _).0 same, h)
  | inr other ↦ rw other tt
]

pub read_sized-Gives :
    (size : ℕ) (wrong : ℕ → Error) (label s : Text)
    → Gives (IsSized size) (read_sized size wrong label s)
unfolding read_sized
read_sized-Gives size wrong label s =
    Gives-bind (IsSized size) IsBytes (read_bytes (missing label) (invalid label) s)
      (check_size size wrong) (read_bytes-Gives (missing label) (invalid label) s)
      (λ bs h. check_size-Gives size wrong bs h)

abbrev pub IsThere : {A : Type 0} → Option A → Type 0
IsThere o = o ≢ none

pub need-Gives : {A : Type 0} (e : Error) (o : Option A) → Gives IsThere (need e o)
unfolding need
need-Gives e none = tt
need-Gives e (some a) = λ k. cc

-- What a pointer leads to has a property, if it is not nil.
abbrev pub IsFine : {A : Type 0} → (A → Type 0) → Option A → Type 0
IsFine P none = Unit {0}
IsFine P (some a) = P a

-- The pointer is not nil, and what it leads to has a property.
abbrev pub IsGiven : {A : Type 0} → (A → Type 0) → Option A → Type 0
IsGiven P none = ⊥
IsGiven P (some a) = P a

pub need-IsGiven :
    {A : Type 0} (P : A → Type 0) (e : Error) (o : Option A)
    → IsFine P o
    → Gives (IsGiven P) (need e o)
unfolding need
need-IsGiven P e none h = tt
need-IsGiven P e (some a) h = h

pub nested-IsFine :
    {J A : Type 0} (P : A → Type 0) (unmarshal : J → Result A)
    → ((j : J) → Gives P (unmarshal j))
    → (o : Option J) → Gives (IsFine P) (nested unmarshal o)
unfolding nested
nested-IsFine P unmarshal gives none = tt
nested-IsFine P unmarshal gives (some j) =
    Gives-bind (IsFine P) P (wrapped (codes "invalid JSON") (unmarshal j)) (λ a. ok (some a))
      (Gives-wrapped P (codes "invalid JSON") (unmarshal j) (gives j)) (λ a h. h)

pub nested-written :
    {J A : Type 0} (P : A → Type 0) (marshal : A → J) (unmarshal : J → Result A)
    → ((a : A) → P a → unmarshal (marshal a) ≡ ok a)
    → (o : Option A) → IsGiven P o
    → nested unmarshal (written marshal o) ≡ ok o
unfolding nested written
nested-written P marshal unmarshal back none h = absurd h
nested-written P marshal unmarshal back (some a) h = rw (back a h) refl

pub need-given :
    {A : Type 0} (P : A → Type 0) (e : Error) (o : Option A) → IsGiven P o → need e o ≡ ok o
unfolding need
need-given P e none h = absurd h
need-given P e (some a) h = refl

pub need-same : {A : Type 0} (e : Error) (o : Option A) → Gives (λ p. p ≡ o) (need e o)
unfolding need
need-same e none = tt
need-same e (some a) = refl

read_within :
    {A : Type 0} (a : A) (r : Result A)
    → (wrapped (codes "invalid JSON") r >>= λ b. ok (some b)) ≡ ok (some a)
    → r ≡ ok a
read_within a (err e) h = ground arith
read_within a (ok b) h = ground arith

-- A pointer that is read back leads to a value that is read back.
pub nested_kept :
    {J A : Type 0} (P : A → Type 0) (marshal : A → J) (unmarshal : J → Result A)
    → ((a : A) → unmarshal (marshal a) ≡ ok a → P a)
    → (o : Option A) → IsThere o
    → nested unmarshal (written marshal o) ≡ ok o
    → IsGiven P o
unfolding nested written
nested_kept P marshal unmarshal kept none h e = absurd (h refl)
nested_kept P marshal unmarshal kept (some a) h e = kept a (read_within a (unmarshal (marshal a)) e)

-- A value within another one that stays as it was read first.
pub field_read :
    {A X : Type 0} (field : X → A) (r : Result A) (unpack : A → Result X) {x : X}
    → ((a : A) → Gives (λ y. field y ≡ a) (unpack a))
    → (r >>= unpack) ≡ ok x
    → r ≡ ok (field x)
field_read field (err e) unpack stays h = ground arith
field_read field (ok a) unpack stays h =
    ap ok (sym (Gives-ok (λ y. field y ≡ a) (unpack a) (stays a) h))

-- What holds of all that the rest of a chain gives.
pub Gives-rest :
    {A X : Type 0} (P : X → Type 0) (r : Result A) (unpack : A → Result X)
    → ((a : A) → Gives P (unpack a))
    → Gives P (r >>= unpack)
Gives-rest P (err e) unpack h = tt
Gives-rest P (ok a) unpack h = h a

abbrev pub IsPositive : ℕ → Type 0
IsPositive n = (n < u64_mod) × (n ≢ 0)

pub nonzero-Gives : (e : Error) (n : ℕ) → IsUint n → Gives IsPositive (nonzero e n)
unfolding nonzero
nonzero-Gives e n h = ground arith

pub read_uints-Gives : (why : Text) (ss : List Text) → Gives (All IsUint) (read_uints why ss)
unfolding read_uints
read_uints-Gives why [] = tt
read_uints-Gives why (s ∷ ss) =
    Gives-bind (All IsUint) IsUint (wrapped why (parse_uint s)) _
      (Gives-wrapped IsUint why (parse_uint s) (parse_uint-Gives s))
      (λ n h.
        Gives-bind (All IsUint) (All IsUint) (read_uints why ss) _ (read_uints-Gives why ss)
          (λ ns hs. (h, hs)))

-- The other way.
read_uint-text :
    (label s : Text) → s ≢ [] → read_uint label s ≡ wrapped (invalid label) (parse_uint s)
unfolding read_uint
read_uint-text label [] h = absurd (h refl)
read_uint-text label (c ∷ s) h = refl

pub read_uint-format_uint :
    (label : Text) (n : ℕ) → IsUint n → read_uint label (format_uint n) ≡ ok n
read_uint-format_uint label n h =
    rw (read_uint-text label (format_uint n) (format_uint-All n).0, parse_uint-format_uint n h)

pub read_bytes-format_hex :
    (missed why : Text) (bs : Bytes)
    → IsBytes bs
    → bs ≢ []
    → read_bytes missed why (format_hex bs) ≡ ok bs
unfolding read_bytes format_hex
read_bytes-format_hex missed why [] h k = absurd (k refl)
read_bytes-format_hex missed why (b ∷ bs) h k = ap (wrapped why) (decode_0x-format_hex (b ∷ bs) h)

-- The size is that of an array, so not zero.
pub read_sized-format_hex :
    (size : ℕ) (wrong : ℕ → Error) (label : Text) (bs : Bytes)
    → IsSized (suc size) bs
    → read_sized (suc size) wrong label (format_hex bs) ≡ ok bs
unfolding read_sized check_size
read_sized-format_hex size wrong label [] h = absurd (omega arith)
read_sized-format_hex size wrong label (b ∷ bs) h =
    rw (read_bytes-format_hex (missing label) (invalid label) (b ∷ bs) h.1 (λ k. cc)) (ground arith)

pub need-some : {A : Type 0} (e : Error) (o : Option A) → o ≢ none → need e o ≡ ok o
unfolding need
need-some e none h = absurd (h refl)
need-some e (some a) h = refl

pub nonzero-ok : (e : Error) (n : ℕ) → n ≢ 0 → nonzero e n ≡ ok n
unfolding nonzero
nonzero-ok e n h = ground arith

pub read_uints-map :
    (why : Text) (ns : List ℕ) → All IsUint ns → read_uints why (map format_uint ns) ≡ ok ns
unfolding read_uints
read_uints-map why [] h = refl
read_uints-map why (n ∷ ns) (h, hs) = rw (parse_uint-format_uint n h, read_uints-map why ns hs)

pub read_positive-Gives : (label s : Text) → Gives IsPositive (read_positive label s)
unfolding read_positive
read_positive-Gives label s =
    Gives-bind IsPositive IsUint (read_uint label s) (nonzero (label ++ codes " cannot be 0"))
      (read_uint-Gives label s) (λ n h. nonzero-Gives (label ++ codes " cannot be 0") n h)

pub read_positive-format_uint :
    (label : Text) (n : ℕ) → IsPositive n → read_positive label (format_uint n) ≡ ok n
unfolding read_positive
read_positive-format_uint label n h =
    rw (read_uint-format_uint label n h.0) (nonzero-ok (label ++ codes " cannot be 0") n h.1)

pub decode_sized-Gives :
    (size : ℕ) (wrong : ℕ → Error) (label s : Text)
    → Gives (IsSized size) (decode_sized size wrong label s)
unfolding decode_sized
decode_sized-Gives size wrong label s =
    Gives-bind (IsSized size) IsBytes (wrapped (invalid label) (decode_0x s))
      (check_size size wrong)
      (Gives-wrapped IsBytes (invalid label) (decode_0x s) (decode_0x-Gives s))
      (λ bs h. check_size-Gives size wrong bs h)

pub decode_sized-format_hex :
    (size : ℕ) (wrong : ℕ → Error) (label : Text) (bs : Bytes)
    → IsSized (suc size) bs
    → decode_sized (suc size) wrong label (format_hex bs) ≡ ok bs
unfolding decode_sized check_size
decode_sized-format_hex size wrong label bs h = rw (decode_0x-format_hex bs h.1) (ground arith)

pub read_array-Gives : (size : ℕ) (label s : Text) → Gives (IsSized size) (read_array size label s)
read_array-Gives size label s = read_sized-Gives size (wrong_length label) label s

pub read_array-format_hex :
    (size : ℕ) (label : Text) (bs : Bytes)
    → IsSized (suc size) bs
    → read_array (suc size) label (format_hex bs) ≡ ok bs
read_array-format_hex size label bs h = read_sized-format_hex size (wrong_length label) label bs h

pub read_array_of-Gives :
    (size : ℕ) (label s : Text) → Gives (IsSized size) (read_array_of size label s)
read_array_of-Gives size label s = read_sized-Gives size (wrong_length_of label) label s

pub read_array_of-format_hex :
    (size : ℕ) (label : Text) (bs : Bytes)
    → IsSized (suc size) bs
    → read_array_of (suc size) label (format_hex bs) ≡ ok bs
read_array_of-format_hex size label bs h =
    read_sized-format_hex size (wrong_length_of label) label bs h

pub decode_array-Gives :
    (size : ℕ) (label s : Text) → Gives (IsSized size) (decode_array size label s)
decode_array-Gives size label s = decode_sized-Gives size (wrong_length label) label s

pub decode_array-format_hex :
    (size : ℕ) (label : Text) (bs : Bytes)
    → IsSized (suc size) bs
    → decode_array (suc size) label (format_hex bs) ≡ ok bs
decode_array-format_hex size label bs h =
    decode_sized-format_hex size (wrong_length label) label bs h

pub decode_array_of-Gives :
    (size : ℕ) (label s : Text) → Gives (IsSized size) (decode_array_of size label s)
decode_array_of-Gives size label s = decode_sized-Gives size (wrong_length_of label) label s

pub decode_array_of-format_hex :
    (size : ℕ) (label : Text) (bs : Bytes)
    → IsSized (suc size) bs
    → decode_array_of (suc size) label (format_hex bs) ≡ ok bs
decode_array_of-format_hex size label bs h =
    decode_sized-format_hex size (wrong_length_of label) label bs h

-- Some numbers, at least one.
abbrev pub IsSomeUints : List ℕ → Type 0
IsSomeUints ns = All IsUint ns × (ns ≢ [])

read_uints-ne : (why s : Text) (ss : List Text) → Gives (λ ns. ns ≢ []) (read_uints why (s ∷ ss))
unfolding read_uints
read_uints-ne why s ss = ground arith

pub read_some_uints-Gives :
    (absent why : Text) (ss : List Text) → Gives IsSomeUints (read_some_uints absent why ss)
unfolding read_some_uints
read_some_uints-Gives absent why [] = tt
read_some_uints-Gives absent why (s ∷ ss) =
    Gives-both (All IsUint) (λ ns. ns ≢ []) (read_uints why (s ∷ ss))
      (read_uints-Gives why (s ∷ ss)) (read_uints-ne why s ss)

pub read_some_uints-map :
    (absent why : Text) (ns : List ℕ)
    → IsSomeUints ns
    → read_some_uints absent why (map format_uint ns) ≡ ok ns
unfolding read_some_uints
read_some_uints-map absent why [] h = absurd (h.1 refl)
read_some_uints-map absent why (n ∷ ns) h = read_uints-map why (n ∷ ns) h.0

-- Three conditions on a value that are the same: it is valid, it is read back from what it is written
-- as, and it is read from something.
abbrev pub Survives : {A J : Type 0} → (A → J) → (J → Result A) → (A → Type 0) → A → Type 0
Survives {A} {J} marshal unmarshal IsValid a =
    (IsValid a ↔ (unmarshal (marshal a) ≡ ok a))
    × (((j : J) × (unmarshal j ≡ ok a)) ↔ (unmarshal (marshal a) ≡ ok a))

pub survives :
    {A J : Type 0} (marshal : A → J) (unmarshal : J → Result A) (IsValid : A → Type 0)
    → ((j : J) → Gives IsValid (unmarshal j))
    → ((a : A) → IsValid a → unmarshal (marshal a) ≡ ok a)
    → (a : A) → Survives marshal unmarshal IsValid a
survives marshal unmarshal IsValid gives back a = (
  (back a, λ e. Gives-ok IsValid (unmarshal (marshal a)) (gives (marshal a)) e),
  (λ (j, e). back a (Gives-ok IsValid (unmarshal j) (gives j) e), λ e. (marshal a, e)),
)

-- No bytes are written as the empty text, which is refused.
pub read_bytes_empty :
    (absent why : Text) (bs : Bytes) → bs ≡ [] → read_bytes absent why (format_hex bs) ≡ err absent
unfolding read_bytes format_hex
read_bytes_empty absent why [] h = refl
read_bytes_empty absent why (b ∷ bs) h = cc
