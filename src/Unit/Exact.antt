-- ===== src/Unit/Exact.antt =====
-- Where the exact result is a time that the clock can show, sums and differences do not wrap.
use gcc_chrome.Common.{◌+◌, ◌^◌, ◌<◌, ◌≡◌, arith}
use gcc_chrome.Common.Int.{ℤ, pos, pos_part, neg_part}
use gcc_chrome.Unit.{Timestamp, add, sub}

-- A time from the epoch up to 2^62 microseconds, some 146,000 years.
abbrev pub IsTime : Timestamp → Type 0
IsTime t = (neg_part t ≡ 0) × (pos_part t < 2 ^ 62)

-- The clocks show times up to 2^61 microseconds, some 73,000 years.
abbrev pub IsClock : Timestamp → Type 0
IsClock t = (neg_part t ≡ 0) × (pos_part t < 2 ^ 61)

pub add-eq : (a b : ℤ) → IsTime a → IsTime b → add a b ≡ pos (pos_part a + pos_part b)
unfolding add
add-eq a b p q = ground arith

pub sub-parts :
    (a b : ℤ)
    → IsTime a
    → IsTime b
    → pos_part (sub a b) + pos_part b ≡ neg_part (sub a b) + pos_part a
unfolding sub
sub-parts a b p q = ground arith
