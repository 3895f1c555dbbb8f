-- ===== src/Codec/Big/RoundTrip.antt =====
-- Bytes of a number are found again in the number, and digits of a number are read as the number.
use go_eth2_client.Prelude.{
  ℕ, zero, suc, ◌+◌, ◌-◌, ◌*◌, ◌/◌, ◌%◌, ◌^◌, ◌<◌, ◌≤◌, ◌==◌, Text, Bytes, true, false, some, [],
  ◌∷◌, length, All, ◌≡◌, ◌≢◌, refl, ap, ◌∙◌, arith, Bool-cases, inl, inr, ==_iff,
}
use go_eth2_client.Codec.Decimal.{format_uint, is_digit}
use go_eth2_client.Codec.Decimal.RoundTrip.{format_uint-All, digits_value, digits_value-format_uint}
use go_eth2_client.Codec.Hex.RoundTrip.{IsBytes}
use go_eth2_client.Codec.Big.{
  scan_big, magnitude_of, set_string, set_bytes, bytes_loop, to_bytes, stored,
}

stored-zeros : (bs : Bytes) → set_bytes bs ≡ 0 → stored (length bs) [] ≡ bs
unfolding stored set_bytes
stored-zeros [] h = refl
stored-zeros (b ∷ bs) h = ground (arith, stored-zeros bs)

-- The step of the loop for a number that is not zero.
bytes_step : (b v : ℕ) → b < 256 → ((b + 256 * v) % 256 ≡ b) × ((b + 256 * v) / 256 ≡ v)
bytes_step b v h = (omega arith, omega arith)

stored-bytes_loop :
    (bs : Bytes) (fuel : ℕ)
    → IsBytes bs
    → set_bytes bs < fuel
    → stored (length bs) (bytes_loop fuel (set_bytes bs)) ≡ bs
unfolding stored set_bytes bytes_loop
stored-bytes_loop bs zero h k = absurd (omega arith)
stored-bytes_loop [] (suc fuel) h k = refl
stored-bytes_loop (b ∷ bs) (suc fuel) (hb, hs) k = elim (Bool-cases (b + 256 * set_bytes bs == 0)) [
  | inl z ↦ rw z (stored-zeros (b ∷ bs) ((==_iff _ _).0 z))
  | inr p ↦
      rw (p, (bytes_step b (set_bytes bs) hb).0, (bytes_step b (set_bytes bs) hb).1)
        (ap (◌∷◌ b) (stored-bytes_loop bs fuel hs (ground arith)))
]

-- The bytes of an array are what is stored again of the number that they make.
pub stored-to_bytes : (bs : Bytes) → IsBytes bs → stored (length bs) (to_bytes (set_bytes bs)) ≡ bs
unfolding to_bytes
stored-to_bytes bs h = stored-bytes_loop bs (suc (set_bytes bs)) h (omega arith)

pub stored-IsBytes : (n : ℕ) (bs : Bytes) → IsBytes bs → IsBytes (stored n bs)
unfolding stored
stored-IsBytes zero bs h = tt
stored-IsBytes (suc n) [] h = (omega arith, stored-IsBytes n [] h)
stored-IsBytes (suc n) (b ∷ bs) (h, hs) = (h, stored-IsBytes n bs hs)

pub length-stored : (n : ℕ) (bs : Bytes) → length (stored n bs) ≡ n
unfolding stored
length-stored zero bs = refl
length-stored (suc n) [] = ap suc (length-stored n [])
length-stored (suc n) (b ∷ bs) = ap suc (length-stored n bs)

bytes_loop-IsBytes : (fuel n : ℕ) → IsBytes (bytes_loop fuel n)
unfolding bytes_loop
bytes_loop-IsBytes zero n = tt
bytes_loop-IsBytes (suc fuel) n = elim (Bool-cases (n == 0)) [
  | inl z ↦ rw z tt
  | inr p ↦ rw p (omega arith, bytes_loop-IsBytes fuel (n / 256))
]

pub to_bytes-IsBytes : (n : ℕ) → IsBytes (to_bytes n)
unfolding to_bytes
to_bytes-IsBytes n = bytes_loop-IsBytes (suc n) n

pow_bound : (b v k : ℕ) → b < 256 → v < 256 ^ k → b + 256 * v < 256 ^ suc k
pow_bound b v k h g = omega arith

-- A number that `k` bytes make is below `256 ^ k`.
pub set_bytes_bound : (bs : Bytes) → IsBytes bs → set_bytes bs < 256 ^ length bs
unfolding set_bytes
set_bytes_bound [] h = omega arith
set_bytes_bound (b ∷ bs) (hb, hs) =
    let k = set_bytes_bound bs hs in pow_bound b (set_bytes bs) (length bs) hb k

length-bytes_loop :
    (bs : Bytes) (fuel : ℕ) → IsBytes bs → length (bytes_loop fuel (set_bytes bs)) ≤ length bs
unfolding bytes_loop set_bytes
length-bytes_loop bs zero h = omega arith
length-bytes_loop [] (suc fuel) h = omega arith
length-bytes_loop (b ∷ bs) (suc fuel) (hb, hs) = elim (Bool-cases (b + 256 * set_bytes bs == 0)) [
  | inl z ↦ rw z (omega arith)
  | inr p ↦
      rw (p, (bytes_step b (set_bytes bs) hb).1)
        (let k = length-bytes_loop bs fuel hs in omega arith)
]

-- No more bytes are needed for a number than those that made it.
pub length-to_bytes : (bs : Bytes) → IsBytes bs → length (to_bytes (set_bytes bs)) ≤ length bs
unfolding to_bytes
length-to_bytes bs h = length-bytes_loop bs (suc (set_bytes bs)) h

not_sign : (c : ℕ) → is_digit c ≡ true → ((c == b'-') ≡ false) × ((c == b'+') ≡ false)
not_sign c h = ground arith

scan_big-value :
    (s : Text) (n : ℕ) → All (λ c. is_digit c ≡ true) s → scan_big 10 s n ≡ some (digits_value s n)
unfolding scan_big
scan_big-value [] n h = refl
scan_big-value (c ∷ s) n (h, hs) = ground (arith, scan_big-value s (n * 10 + (c - b'0')) hs)

set_string-digits :
    (s : Text)
    → s ≢ []
    → All (λ c. is_digit c ≡ true) s
    → set_string 10 s ≡ some (record { is_negative = false; magnitude = digits_value s 0 })
unfolding set_string magnitude_of
set_string-digits [] k h = absurd (k refl)
set_string-digits (c ∷ s) k (h, hs) =
    rw (not_sign c h).0 (rw (not_sign c h).1 (rw (scan_big-value (c ∷ s) 0 (h, hs)) refl))

-- A printed number is set again.
pub set_string-format_uint :
    (n : ℕ) → set_string 10 (format_uint n) ≡ some (record { is_negative = false; magnitude = n })
set_string-format_uint n =
    set_string-digits (format_uint n) (format_uint-All n).0 (format_uint-All n).1
    ∙ ap (λ (m : ℕ). some (record { is_negative = false; magnitude = m }))
        (digits_value-format_uint n)
