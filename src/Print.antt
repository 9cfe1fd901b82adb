-- ===== src/Print.antt =====
-- The ToString functions of the units: chrome_gcc/src/time/timestamp.cc and time_delta.cc, and
-- chrome_gcc/src/common/data_rate.cc, data_size.cc and frequency.cc. A text is a list of character
-- codes.
pub mod RoundTrip
mod Tests
use gcc_chrome.Common.{ℕ, suc, ◌%◌, Bool, ◌||◌, not, if◌then◌else◌, List, [], ◌∷◌, ◌++◌}
use gcc_chrome.Common.Double.{Double}
use gcc_chrome.Common.Int.{ℤ, pos, negsuc, sub_ℕ, eqb_ℤ}
use gcc_chrome.Packet.{Text, to_string}
use gcc_chrome.Unit.{
  Timestamp, TimeDelta, DataRate, DataSize, is_plus_infinity, is_minus_infinity, timestamp_ms,
  time_delta_ms, kbps,
}
use gcc_chrome.Unit.Rounding.{timestamp_seconds, time_delta_seconds}
use gcc_chrome.Unit.Frequency.{Frequency, hertz, hertz_double}

-- std::to_string of an int64_t.
unfoldable pub int_text : ℤ → Text
int_text (pos n) = to_string n
int_text (negsuc n) = 45 ∷ to_string (suc n)

-- C++ `%` by a positive constant has the sign of the dividend.
unfoldable pub rem : ℤ → ℕ → ℤ
rem (pos n) d = pos (n % d)
rem (negsuc n) d = sub_ℕ 0 (suc n % d)

unfoldable pub is_multiple : ℤ → ℕ → Bool
is_multiple value d = eqb_ℤ (rem value d) (pos 0)

-- "+inf" and "-inf"
abbrev pub plus_inf : Text
plus_inf = 43 ∷ 105 ∷ 110 ∷ 102 ∷ []

abbrev pub minus_inf : Text
minus_inf = 45 ∷ 105 ∷ 110 ∷ 102 ∷ []

-- " us", " ms", " s", " bps", " kbps", " bytes", "Hz" and " Hz"
abbrev pub us_text : Text
us_text = 32 ∷ 117 ∷ 115 ∷ []

abbrev pub ms_text : Text
ms_text = 32 ∷ 109 ∷ 115 ∷ []

abbrev pub s_text : Text
s_text = 32 ∷ 115 ∷ []

abbrev pub bps_text : Text
bps_text = 32 ∷ 98 ∷ 112 ∷ 115 ∷ []

abbrev pub kbps_text : Text
kbps_text = 32 ∷ 107 ∷ 98 ∷ 112 ∷ 115 ∷ []

abbrev pub bytes_text : Text
bytes_text = 32 ∷ 98 ∷ 121 ∷ 116 ∷ 101 ∷ 115 ∷ []

abbrev pub hz_text : Text
hz_text = 72 ∷ 122 ∷ []

unfoldable pub timestamp_text : Timestamp → Text
timestamp_text value =
    if is_plus_infinity value
    then plus_inf ++ ms_text
    else if is_minus_infinity value
    then minus_inf ++ ms_text
    else if eqb_ℤ value (pos 0) || not (is_multiple value 1000)
    then int_text value ++ us_text
    else if not (is_multiple (timestamp_ms value) 1000)
    then int_text (timestamp_ms value) ++ ms_text
    else int_text (timestamp_seconds value) ++ s_text

unfoldable pub time_delta_text : TimeDelta → Text
time_delta_text value =
    if is_plus_infinity value
    then plus_inf ++ ms_text
    else if is_minus_infinity value
    then minus_inf ++ ms_text
    else if eqb_ℤ value (pos 0) || not (is_multiple value 1000)
    then int_text value ++ us_text
    else if not (is_multiple (time_delta_ms value) 1000)
    then int_text (time_delta_ms value) ++ ms_text
    else int_text (time_delta_seconds value) ++ s_text

unfoldable pub data_rate_text : DataRate → Text
data_rate_text value =
    if is_plus_infinity value
    then plus_inf ++ bps_text
    else if is_minus_infinity value
    then minus_inf ++ bps_text
    else if eqb_ℤ value (pos 0) || not (is_multiple value 1000)
    then int_text value ++ bps_text
    else int_text (kbps value) ++ kbps_text

unfoldable pub data_size_text : DataSize → Text
data_size_text value =
    if is_plus_infinity value
    then plus_inf ++ bytes_text
    else if is_minus_infinity value
    then minus_inf ++ bytes_text
    else int_text value ++ bytes_text

-- std::to_string of a double is the library's.
unfoldable pub frequency_text {ℓ} :
    {F : Type ℓ} ⦃fl : Double F⦄ → (double_text : F → Text) → Frequency → Text
frequency_text double_text value =
    if is_plus_infinity value
    then plus_inf ++ (32 ∷ hz_text)
    else if is_minus_infinity value
    then minus_inf ++ (32 ∷ hz_text)
    else if not (is_multiple value 1000)
    then double_text (hertz_double value) ++ hz_text
    else int_text (hertz value) ++ (32 ∷ hz_text)
