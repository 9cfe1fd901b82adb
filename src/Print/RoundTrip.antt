-- ===== src/Print/RoundTrip.antt =====
-- The texts of the units, read back as a number and a unit.
use gcc_chrome.Common.{
  ℕ, ◌+◌, ◌*◌, ◌/◌, ◌^◌, ◌<◌, ◌≡◌, ◌||◌, false, ap, ◌∙◌, if◌then◌else◌, [], ◌∷◌, ◌++◌, arith, refl,
}
use gcc_chrome.Common.Int.{pos, quot, int64, ◌+ℤ◌}
use gcc_chrome.Common.Lists.{All}
use gcc_chrome.Packet.{Text, is_digit, equal_text, to_string, read_digits}
use gcc_chrome.Packet.Number.{IsDigit, read_digits-append, to_string-All, read_digits-to_string}
use gcc_chrome.Unit.{
  timestamp_ms, time_delta_ms, kbps, is_plus_infinity, is_minus_infinity, div_round_to_nearest,
  div_round_positive_to_nearest,
}
use gcc_chrome.Unit.Rounding.{timestamp_seconds, time_delta_seconds}
use gcc_chrome.Print.{
  rem, int_text, is_multiple, us_text, ms_text, s_text, bps_text, kbps_text, bytes_text,
  timestamp_text, time_delta_text, data_rate_text, data_size_text,
}

unfoldable after_digits : Text → Text
after_digits [] = []
after_digits (c ∷ cs) = let rest = after_digits cs in if is_digit c then rest else c ∷ cs

-- Microseconds, bits per second or bytes in a unit of that text.
unfoldable unit_scale : Text → ℕ
unit_scale t =
    if equal_text t ms_text || equal_text t kbps_text
    then 1000
    else if equal_text t s_text
    then 1_000_000
    else if equal_text t us_text || equal_text t bps_text || equal_text t bytes_text
    then 1
    else 0

unfoldable pub read_unit : Text → ℕ
unfolding unit_scale after_digits
read_unit t = read_digits 0 t * unit_scale (after_digits t)

after_digits-append :
    (xs : Text) (c : ℕ) (ys : Text)
    → All IsDigit xs
    → is_digit c ≡ false
    → after_digits (xs ++ (c ∷ ys)) ≡ c ∷ ys
unfolding after_digits
after_digits-append [] c ys ds h = ground arith
after_digits-append (x ∷ xs) c ys (d, ds) h = ground (arith, after_digits-append xs c ys ds h)

-- A number and a unit, which begins with a space.
read_unit-append :
    (n : ℕ) (u : Text) → n < 2 ^ 63 → read_unit (to_string n ++ (32 ∷ u)) ≡ n * unit_scale (32 ∷ u)
unfolding read_unit read_digits
read_unit-append n u small =
    let number =
      read_digits-append 0 (to_string n) (32 ∷ u) (to_string-All n)
      ∙ read_digits-to_string n (omega arith) in
    let rest = after_digits-append (to_string n) 32 u (to_string-All n) refl in rw (number, rest)

-- The texts of a number of microseconds, bits per second or bytes below 2^62.
timestamp_text-read : (v : ℕ) → v < 2 ^ 62 → read_unit (timestamp_text (pos v)) ≡ v
unfolding timestamp_text is_plus_infinity is_minus_infinity is_multiple rem int_text timestamp_ms
    timestamp_seconds div_round_positive_to_nearest quot int64 ◌+ℤ◌ unit_scale equal_text
timestamp_text-read v small = ground (
  arith,
  read_unit-append v (117 ∷ 115 ∷ []) (omega arith),
  read_unit-append ((v + 500) / 1000) (109 ∷ 115 ∷ []) (omega arith),
  read_unit-append ((v + 500_000) / 1_000_000) (115 ∷ []) (omega arith),
)

data_size_text-read : (v : ℕ) → v < 2 ^ 62 → read_unit (data_size_text (pos v)) ≡ v
unfolding data_size_text is_plus_infinity is_minus_infinity int_text unit_scale equal_text
data_size_text-read v small =
    ground (arith, read_unit-append v (98 ∷ 121 ∷ 116 ∷ 101 ∷ 115 ∷ []) (omega arith))

-- Numbers that are not negative are rounded alike.
div_round_to_nearest-pos :
    (v d : ℕ) → div_round_to_nearest (pos v) d ≡ div_round_positive_to_nearest (pos v) d
unfolding div_round_to_nearest div_round_positive_to_nearest
div_round_to_nearest-pos v d = ground arith

time_delta_text-timestamp_text : (v : ℕ) → time_delta_text (pos v) ≡ timestamp_text (pos v)
unfolding time_delta_text timestamp_text timestamp_ms time_delta_ms timestamp_seconds
    time_delta_seconds
time_delta_text-timestamp_text v =
    rw (div_round_to_nearest-pos v 1000, div_round_to_nearest-pos v 1_000_000) refl

data_rate_text-read : (v : ℕ) → v < 2 ^ 62 → read_unit (data_rate_text (pos v)) ≡ v
unfolding data_rate_text is_plus_infinity is_minus_infinity is_multiple rem int_text kbps
    div_round_positive_to_nearest quot int64 ◌+ℤ◌ unit_scale equal_text
data_rate_text-read v small = ground (
  arith,
  read_unit-append v (98 ∷ 112 ∷ 115 ∷ []) (omega arith),
  read_unit-append ((v + 500) / 1000) (107 ∷ 98 ∷ 112 ∷ 115 ∷ []) (omega arith),
)

-- A number of microseconds, bits per second or bytes below 2^62 is what its text, read as a decimal
-- number times its unit, says: a time or a rate is printed in a larger unit only where that is
-- exact.
pub text-read :
    (v : ℕ)
    → v < 2 ^ 62
    → (read_unit (timestamp_text (pos v)) ≡ v)
      × (read_unit (time_delta_text (pos v)) ≡ v)
      × (read_unit (data_rate_text (pos v)) ≡ v)
      × (read_unit (data_size_text (pos v)) ≡ v)
text-read v small = (
  timestamp_text-read v small,
  ap read_unit (time_delta_text-timestamp_text v) ∙ timestamp_text-read v small,
  data_rate_text-read v small,
  data_size_text-read v small,
)
