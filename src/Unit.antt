-- ===== src/Unit.antt =====
-- chrome_gcc/src/common/unit_base.h with time/time_delta.h, time/timestamp.h, common/data_rate.h and
-- common/data_size.h. A unit is its `value_`: microseconds, bits per second or bytes, an int64_t
-- whose extreme values stand for the infinities. Sums wrap, as the build's code does.
pub mod Exact
pub mod Frequency
pub mod Rounding
mod Tests
use gcc_chrome.Common.{ℕ, ◌+◌, ◌*◌, ◌/◌, Bool, Option, ◌||◌, not, if◌then◌else◌}
use gcc_chrome.Common.Double.{Double}
use gcc_chrome.Common.Int.{
  ℤ, pos, negsuc, ◌+ℤ◌, ◌-ℤ◌, ◌*ℤ◌, int64, int64_max, int64_min, quot, div_ℤ, eqb_ℤ, ltb_ℤ, max_ℤ,
  min_ℤ,
}

abbrev pub Timestamp : Type 0
Timestamp = ℤ

abbrev pub TimeDelta : Type 0
TimeDelta = ℤ

abbrev pub DataRate : Type 0
DataRate = ℤ

abbrev pub DataSize : Type 0
DataSize = ℤ

abbrev pub plus_infinity : ℤ
plus_infinity = int64_max

abbrev pub minus_infinity : ℤ
minus_infinity = int64_min

unfoldable pub is_zero : ℤ → Bool
is_zero a = eqb_ℤ a (pos 0)

unfoldable pub is_plus_infinity : ℤ → Bool
is_plus_infinity a = eqb_ℤ a plus_infinity

unfoldable pub is_minus_infinity : ℤ → Bool
is_minus_infinity a = eqb_ℤ a minus_infinity

unfoldable pub is_infinite : ℤ → Bool
unfolding is_plus_infinity is_minus_infinity
is_infinite a = is_plus_infinity a || is_minus_infinity a

unfoldable pub is_finite : ℤ → Bool
unfolding is_infinite
is_finite a = not (is_infinite a)

-- `operator+` of RelativeUnit, and of Timestamp and TimeDelta.
unfoldable pub add : ℤ → ℤ → ℤ
unfolding is_plus_infinity is_minus_infinity ◌+ℤ◌ int64
add a b =
    if is_plus_infinity a || is_plus_infinity b
    then plus_infinity
    else if is_minus_infinity a || is_minus_infinity b
    then minus_infinity
    else int64 (a +ℤ b)

-- `operator-` of RelativeUnit, of Timestamp and TimeDelta, and of two Timestamps.
unfoldable pub sub : ℤ → ℤ → ℤ
unfolding is_plus_infinity is_minus_infinity ◌-ℤ◌ int64
sub a b =
    if is_plus_infinity a || is_minus_infinity b
    then plus_infinity
    else if is_minus_infinity a || is_plus_infinity b
    then minus_infinity
    else int64 (a -ℤ b)

unfoldable pub clamped : ℤ → ℤ → ℤ → ℤ
clamped a min_value max_value = max_ℤ min_value (min_ℤ a max_value)

-- `FromFraction`, for an integer.
unfoldable pub from_fraction : ℕ → ℤ → ℤ
unfolding int64 ◌*ℤ◌
from_fraction denominator value = int64 (value *ℤ pos denominator)

unfoldable pub div_round_positive_to_nearest : ℤ → ℕ → ℤ
unfolding int64 ◌+ℤ◌ quot
div_round_positive_to_nearest n d = quot (int64 (n +ℤ pos (d / 2))) d

unfoldable pub div_round_to_nearest : ℤ → ℕ → ℤ
unfolding int64 ◌+ℤ◌ ◌-ℤ◌ quot
div_round_to_nearest n d =
    quot (if ltb_ℤ n (pos 0) then int64 (n -ℤ pos (d / 2)) else int64 (n +ℤ pos (d / 2))) d

abbrev pub seconds : ℕ → TimeDelta
seconds n = pos (n * 1_000_000)

abbrev pub millis : ℕ → TimeDelta
millis n = pos (n * 1_000)

-- `ms()` of a Timestamp, which is one-sided, and of a TimeDelta, which is not; `kbps()`.
unfoldable pub timestamp_ms : Timestamp → ℤ
unfolding div_round_positive_to_nearest
timestamp_ms t = div_round_positive_to_nearest t 1000

unfoldable pub time_delta_ms : TimeDelta → ℤ
unfolding div_round_to_nearest
time_delta_ms t = div_round_to_nearest t 1000

unfoldable pub kbps : DataRate → ℤ
unfolding div_round_positive_to_nearest
kbps r = div_round_positive_to_nearest r 1000

-- `TimeDelta::operator/` and `DataRate` arithmetic through int64_t.
unfoldable pub microbits : DataSize → ℤ
unfolding int64 ◌*ℤ◌
microbits size = int64 (size *ℤ pos 8_000_000)

-- DataRate * TimeDelta, DataSize / TimeDelta and DataSize / DataRate; `none`: the division is
-- undefined.
unfoldable pub rate_times : DataRate → TimeDelta → DataSize
unfolding int64 ◌*ℤ◌ ◌+ℤ◌ quot
rate_times rate duration = quot (int64 (int64 (rate *ℤ duration) +ℤ pos 4_000_000)) 8_000_000

unfoldable pub size_per_time : DataSize → TimeDelta → Option DataRate
unfolding microbits div_ℤ
size_per_time size duration = div_ℤ (microbits size) duration

unfoldable pub size_per_rate : DataSize → DataRate → Option TimeDelta
unfolding microbits div_ℤ
size_per_rate size rate = div_ℤ (microbits size) rate

module _ {ℓ} {F : Type ℓ} ⦃fl : Double F⦄ where
  -- `FromValue` and `ToValue`, for a floating-point type.
  unfoldable pub from_double : F → ℤ
  from_double v =
      if fl.eq v fl.infinity
      then plus_infinity
      else if fl.eq v fl.minus_infinity
      then minus_infinity
      else fl.to_int v

  unfoldable pub to_double : ℤ → F
  unfolding is_plus_infinity is_minus_infinity
  to_double a =
      if is_plus_infinity a
      then fl.infinity
      else if is_minus_infinity a
      then fl.minus_infinity
      else fl.of_int a

  -- `operator*(double)`.
  unfoldable pub scale : ℤ → F → ℤ
  unfolding from_double
  scale a scalar = from_double (fl.round (fl.mul (fl.of_int a) scalar))

  -- `Seconds` of a floating-point number, and `seconds<double>()`.
  unfoldable pub seconds_double : F → TimeDelta
  unfolding from_double
  seconds_double v = from_double (fl.mul v (fl.of_int (pos 1_000_000)))

  unfoldable pub to_seconds : TimeDelta → F
  unfolding to_double
  to_seconds t = fl.mul (to_double t) (fl.div (fl.of_int (pos 1)) (fl.of_int (pos 1_000_000)))

  -- `operator/(double)`.
  unfoldable pub divide_double : ℤ → F → ℤ
  unfolding from_double
  divide_double a scalar = from_double (fl.round (fl.div (fl.of_int a) scalar))

  -- `KilobitsPerSec` of a floating-point number.
  unfoldable pub kilobits_per_sec : F → DataRate
  unfolding from_double
  kilobits_per_sec v = from_double (fl.mul v (fl.of_int (pos 1000)))

-- `operator/` by an integer scalar, which rounds in the floating-point type.
unfoldable pub divide {ℓ} : (F : Type ℓ) ⦃fl : Double F⦄ → ℤ → ℕ → ℤ
unfolding from_double quot
divide F ⦃fl⦄ a scalar = from_double (fl.round (fl.of_int (quot a scalar)))
