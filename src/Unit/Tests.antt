-- ===== src/Unit/Tests.antt =====
-- chrome_gcc/src/common/unit_base.h: the roundings of 1,700 microseconds to milliseconds.
use gcc_chrome.Common.{ℕ, ◌*◌, ◌+◌, ◌≤◌, ◌<◌, ◌≡◌, arith}
use gcc_chrome.Common.Int.{pos}
use gcc_chrome.Unit.Rounding.{round_to, round_up_to, round_down_to, round-nearest}

round-nearest_example :
    (down : ℕ) × (up : ℕ) × (near : ℕ) × (round_down_to (pos 1700) (pos 1000) ≡ pos (down * 1000))
    × (round_up_to (pos 1700) (pos 1000) ≡ pos (up * 1000))
    × (round_to (pos 1700) (pos 1000) ≡ pos (near * 1000))
    × (down * 1000 ≤ 1700)
    × (1700 < down * 1000 + 1000)
    × (1700 ≤ up * 1000)
    × (up * 1000 < 1700 + 1000)
    × (2 * (near * 1000) ≤ 2 * 1700 + 1000)
    × (2 * 1700 ≤ 2 * (near * 1000) + 1000)
round-nearest_example = round-nearest 1700 1000 (omega arith) (omega arith)
