-- ===== src/Codec/Decimal/RoundTrip.antt =====
-- Printed numbers are read back.
use mathlib.Core.List.{concat-ne-nil}
use go_eth2_client.Prelude.{
  ◌-◌, Gives, All, All-append, true, ℕ, zero, suc, ◌+◌, ◌*◌, ◌/◌, ◌%◌, ◌<◌, Text, ok, ltb, [], ◌∷◌,
  ◌++◌, u64_mod, ◌≡◌, ◌≢◌, refl, sym, ap, ◌∙◌, arith, append_assoc, append-nil, Bool-cases, inl,
  inr, ltb→lt,
}
use go_eth2_client.Codec.Decimal.{
  Parsed, refused, is_digit, digits, format_uint, scan, parse_uint, number, parsed,
}

scan_digit :
    (d m : ℕ) (rest : Text)
    → d < 10
    → m * 10 + d < u64_mod
    → scan ((b'0' + d) ∷ rest) m ≡ scan rest (m * 10 + d)
unfolding scan
scan_digit d m rest h k = ground arith

-- Reading the digits of `n` leads on to the rest with `n` read.
scan-digits :
    (fuel n : ℕ) (rest : Text)
    → n < fuel
    → n < u64_mod
    → scan (digits fuel n ++ rest) 0 ≡ scan rest n
unfolding scan digits
scan-digits zero n rest h k = absurd (omega arith)
scan-digits (suc fuel) n rest h k = elim (Bool-cases (ltb n 10)) [
  | inl one ↦
      rw one (scan_digit n 0 rest (ltb→lt n 10 one) (omega arith) ∙ ap (scan rest) (omega arith))
  | inr more ↦
      rw (more, append_assoc)
        (scan-digits fuel (n / 10) _ (ground arith) (omega arith)
          ∙ scan_digit (n % 10) (n / 10) rest (omega arith) (omega arith)
          ∙ ap (scan rest) (omega arith))
]

digits-ne-nil : (fuel n : ℕ) → n < fuel → digits fuel n ≢ []
unfolding digits
digits-ne-nil zero n h p = omega arith
digits-ne-nil (suc fuel) n h p =
    ground (arith, concat-ne-nil (b'0' + n % 10) (digits fuel (n / 10)))

parse_uint-scan : (s : Text) → s ≢ [] → parse_uint s ≡ parsed s (scan s 0)
unfolding parse_uint
parse_uint-scan [] h = absurd (h refl)
parse_uint-scan (c ∷ s) h = refl

-- Every uint64 is read back from its decimal text.
pub parse_uint-format_uint : (n : ℕ) → n < u64_mod → parse_uint (format_uint n) ≡ ok n
unfolding format_uint scan
parse_uint-format_uint n h =
    let s = digits (suc n) n in
    let e : scan s 0 ≡ number n =
      ap (λ t. scan t 0) (sym (append-nil s)) ∙ scan-digits (suc n) n [] (omega arith) h in
    parse_uint-scan s (digits-ne-nil (suc n) n (omega arith)) ∙ ap (parsed s) e

is_digit-digit : (d : ℕ) → d < 10 → is_digit (b'0' + d) ≡ true
is_digit-digit d h = ground arith

digits-All : (fuel n : ℕ) → All (λ c. is_digit c ≡ true) (digits fuel n)
unfolding digits
digits-All zero n = tt
digits-All (suc fuel) n = elim (Bool-cases (ltb n 10)) [
  | inl one ↦ rw one (is_digit-digit n (ltb→lt n 10 one), tt)
  | inr more ↦ rw more (
      All-append (λ c. is_digit c ≡ true) (digits fuel (n / 10)) ((b'0' + n % 10) ∷ [])
        (digits-All fuel (n / 10)) (is_digit-digit (n % 10) (omega arith), tt))
]

-- A printed number has digits only, and one at least.
pub format_uint-All : (n : ℕ) → (format_uint n ≢ []) × All (λ c. is_digit c ≡ true) (format_uint n)
unfolding format_uint
format_uint-All n = (digits-ne-nil (suc n) n (omega arith), digits-All (suc n) n)

abbrev IsBelow : Parsed → Type 0
IsBelow (number n) = n < u64_mod
IsBelow (refused e) = Unit

scan-IsBelow : (s : Text) (n : ℕ) → n < u64_mod → IsBelow (scan s n)
unfolding scan
scan-IsBelow [] n h = h
scan-IsBelow (c ∷ s) n h = ground (arith, scan-IsBelow s (n * 10 + (c - b'0')))

parsed-Gives : (s : Text) (p : Parsed) → IsBelow p → Gives (λ n. n < u64_mod) (parsed s p)
parsed-Gives s (number n) h = h
parsed-Gives s (refused e) h = tt

-- A number that is read is a uint64.
pub parse_uint-Gives : (s : Text) → Gives (λ n. n < u64_mod) (parse_uint s)
unfolding parse_uint
parse_uint-Gives [] = tt
parse_uint-Gives (c ∷ s) =
    parsed-Gives (c ∷ s) (scan (c ∷ s) 0) (scan-IsBelow (c ∷ s) 0 (omega arith))

-- The number that digits stand for, after those of `n`.
abbrev pub digits_value : Text → ℕ → ℕ
digits_value [] n = n
digits_value (c ∷ s) n = digits_value s (n * 10 + (c - b'0'))

digits_value-digits :
    (fuel n : ℕ) (rest : Text)
    → n < fuel
    → digits_value (digits fuel n ++ rest) 0 ≡ digits_value rest n
unfolding digits
digits_value-digits zero n rest h = absurd (omega arith)
digits_value-digits (suc fuel) n rest h = elim (Bool-cases (ltb n 10)) [
  | inl one ↦ rw one (ap (digits_value rest) (omega arith))
  | inr more ↦
      rw (more, append_assoc)
        (digits_value-digits fuel (n / 10) _ (ground arith) ∙ ap (digits_value rest) (omega arith))
]

-- A number of any size is printed with the digits that stand for it.
pub digits_value-format_uint : (n : ℕ) → digits_value (format_uint n) 0 ≡ n
unfolding format_uint
digits_value-format_uint n =
    ap (λ t. digits_value t 0) (sym (append-nil (digits (suc n) n)))
    ∙ digits_value-digits (suc n) n [] (omega arith)
