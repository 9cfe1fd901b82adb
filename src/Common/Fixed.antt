-- ===== src/Common/Fixed.antt =====
-- Numbers with six decimals: a type of numbers at which the development's functions run in its
-- tests, and which shows that the hypotheses on `double` can be met.
use gcc_chrome.Common.Double.{Double}
use gcc_chrome.Common.Int.{
  ℤ, pos, negsuc, pos_part, neg_part, ◌+ℤ◌, ◌-ℤ◌, ◌*ℤ◌, quot, quot_ℤ, ltb_ℤ, leb_ℤ, eqb_ℤ,
}
use gcc_chrome.Common.Tests.{leb, if◌then◌else◌}
use Prim.Native.Nat.{ℕ, zero, suc, ◌+◌, ◌*◌, ◌/◌, ◌^◌}

abbrev pub Fixed : Type 0
Fixed = ℤ

abbrev one : ℕ
one = 1_000_000

abbrev abs_ℤ : ℤ → ℕ
abs_ℤ a = pos_part a + neg_part a

unfoldable isqrt : ℕ → ℕ → ℕ
isqrt zero n = 0
isqrt (suc fuel) n =
    let r = 2 * isqrt fuel (n / 4) in if leb ((r + 1) * (r + 1)) n then r + 1 else r

unfoldable power : ℕ → ℤ → ℤ
unfolding ◌*ℤ◌ quot
power zero a = pos one
power (suc n) a = quot (a *ℤ power n a) one

unfoldable round_fixed : ℤ → ℤ
unfolding ◌+ℤ◌ ◌-ℤ◌ ◌*ℤ◌ quot
round_fixed a =
    quot (if ltb_ℤ a (pos 0) then a -ℤ pos (one / 2) else a +ℤ pos (one / 2)) one *ℤ pos one

unfoldable ceil_fixed : ℤ → ℤ
unfolding ◌+ℤ◌ ◌*ℤ◌ quot
ceil_fixed a = (if ltb_ℤ (pos 0) a then quot (a +ℤ pos 999_999) one else quot a one) *ℤ pos one

instance unfoldable pub fixed : Double Fixed
unfolding ◌+ℤ◌ ◌-ℤ◌ ◌*ℤ◌ quot quot_ℤ isqrt power round_fixed ceil_fixed
fixed = record {
  of_int = λ z. z *ℤ pos one;
  to_int = λ x. quot x one;
  decimal = λ m k. quot (m *ℤ pos one) (10 ^ k);
  infinity = pos (10 ^ 40);
  minus_infinity = negsuc (10 ^ 40);
  neg = λ x. pos 0 -ℤ x;
  add = ◌+ℤ◌;
  sub = ◌-ℤ◌;
  mul = λ x y. quot (x *ℤ y) one;
  div = λ x y. quot_ℤ (x *ℤ pos one) y;
  single = λ x. x;
  round = round_fixed;
  ceil = ceil_fixed;
  fabs = λ x. pos (abs_ℤ x);
  sqrt = λ x. pos (isqrt 100 (pos_part x * one));
  pow = λ x y. power (pos_part (quot y one)) x;
  lt = ltb_ℤ;
  le = leb_ℤ;
  eq = eqb_ℤ;
}
