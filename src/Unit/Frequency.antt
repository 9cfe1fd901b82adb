-- ===== src/Unit/Frequency.antt =====
-- chrome_gcc/src/common/frequency.h, and the conversions of data_rate.h between rates, sizes and
-- frequencies. A Frequency is its `value_`: millihertz.
use gcc_chrome.Common.{Option}
use gcc_chrome.Common.Double.{Double}
use gcc_chrome.Common.Int.{ℤ, pos, ◌+ℤ◌, ◌*ℤ◌, int64, quot, div_ℤ}
use gcc_chrome.Unit.{
  DataRate, DataSize, TimeDelta, from_fraction, div_round_positive_to_nearest, to_double,
  to_seconds,
}

abbrev pub Frequency : Type 0
Frequency = ℤ

unfoldable pub from_hertz : ℤ → Frequency
from_hertz value = from_fraction 1000 value

unfoldable pub from_kilohertz : ℤ → Frequency
from_kilohertz value = from_fraction 1_000_000 value

unfoldable pub hertz : Frequency → ℤ
hertz f = div_round_positive_to_nearest f 1000

-- `operator/` of an int64_t by a TimeDelta, and by a Frequency.
unfoldable pub count_per_time : ℤ → TimeDelta → Option Frequency
count_per_time nominator interval = div_ℤ (int64 (nominator *ℤ pos 1_000_000_000)) interval

unfoldable pub count_per_frequency : ℤ → Frequency → Option TimeDelta
count_per_frequency nominator frequency = div_ℤ (int64 (nominator *ℤ pos 1_000_000_000)) frequency

unfoldable pub millibyte_per_sec : DataRate → ℤ
millibyte_per_sec rate = int64 (rate *ℤ pos 125)

-- DataRate / Frequency, DataRate / DataSize and DataSize * Frequency
unfoldable pub rate_per_frequency : DataRate → Frequency → Option DataSize
rate_per_frequency rate frequency = div_ℤ (millibyte_per_sec rate) frequency

unfoldable pub rate_per_size : DataRate → DataSize → Option Frequency
rate_per_size rate size = div_ℤ (millibyte_per_sec rate) size

unfoldable pub size_times_frequency : DataSize → Frequency → DataRate
size_times_frequency size frequency =
    quot (int64 (int64 (int64 (size *ℤ pos 8) *ℤ frequency) +ℤ pos 500)) 1000

module _ {ℓ} {F : Type ℓ} ⦃fl : Double F⦄ where
  unfoldable pub hertz_double : Frequency → F
  hertz_double f = fl.mul (to_double f) (fl.div (fl.of_int (pos 1)) (fl.of_int (pos 1000)))

  -- Frequency * TimeDelta.
  unfoldable pub frequency_times : Frequency → TimeDelta → F
  frequency_times frequency time_delta = fl.mul (hertz_double frequency) (to_seconds time_delta)
