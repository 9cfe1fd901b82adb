-- ===== src/SendSide/Fraction.antt =====
-- The loss fraction that a report of lost packets gives.
use Prim.Native.Nat.{min}
use gcc_chrome.Common.{ℕ, ◌*◌, ◌/◌, ◌^◌, ◌≤◌, ◌<◌, ◌≡◌, arith}
use gcc_chrome.Common.Int.{ℤ, pos, min_ℤ, int64-eq, int32, to_u8, quot}
use gcc_chrome.SendSide.Estimate.{fraction_of}

to_fraction : ℤ → ℕ
to_fraction q = to_u8 (min_ℤ (int32 q) (pos 255))

to_fraction-eq : (q : ℕ) → q ≤ 256 → to_fraction (pos q) ≡ min q 255
unfolding to_fraction int32 to_u8
to_fraction-eq q h = ground arith

quotient_le : (lost expected : ℕ) → lost ≤ expected → lost * 256 / expected ≤ 256
quotient_le lost expected h = grind arith

-- 256 times the share of lost packets, rounded down and at most 255: no conversion changes the value.
pub fraction_of-eq :
    (lost expected : ℕ)
    → lost ≤ expected
    → lost < 2 ^ 54
    → fraction_of lost expected ≡ min (lost * 256 / expected) 255
unfolding fraction_of quot
fraction_of-eq lost expected h small =
    rw (int64-eq (pos (lost * 256)) (omega arith) (omega arith))
      (unfold to_fraction in to_fraction-eq (lost * 256 / expected) (quotient_le lost expected h))
