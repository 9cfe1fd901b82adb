-- ===== src/Print/Tests.antt =====
-- chrome_gcc/src/time and chrome_gcc/src/common: the texts of 1,500,000.
use gcc_chrome.Common.{◌≡◌, arith}
use gcc_chrome.Common.Int.{pos}
use gcc_chrome.Print.{timestamp_text, time_delta_text, data_rate_text, data_size_text}
use gcc_chrome.Print.RoundTrip.{read_unit, text-read}

text-read_example :
    (read_unit (timestamp_text (pos 1_500_000)) ≡ 1_500_000)
    × (read_unit (time_delta_text (pos 1_500_000)) ≡ 1_500_000)
    × (read_unit (data_rate_text (pos 1_500_000)) ≡ 1_500_000)
    × (read_unit (data_size_text (pos 1_500_000)) ≡ 1_500_000)
text-read_example = text-read 1_500_000 (omega arith)
