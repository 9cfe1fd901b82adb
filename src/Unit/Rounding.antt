-- ===== src/Unit/Rounding.antt =====
-- Rounding and the other conversions of chrome_gcc/src/common/unit_base.h and of the units.
use gcc_chrome.Common.{ℕ, ◌+◌, ◌-◌, ◌*◌, ◌/◌, ◌^◌, ◌≤◌, ◌<◌, ◌≡◌, Bool, if◌then◌else◌, arith, refl}
use native.Mathlib.Nat.{div-add-mod', mod-lt}
use gcc_chrome.Common.Int.{
  int64-eq, +ℤ_parts, -ℤ_parts, eq_of_parts, ℤ, pos, ◌+ℤ◌, ◌-ℤ◌, ◌*ℤ◌, int64, quot, quot_ℤ, ltb_ℤ,
}
use gcc_chrome.Common.Double.{Double}
use gcc_chrome.Unit.{
  add, sub, clamped, from_double, to_double, Timestamp, TimeDelta, DataRate, is_finite,
  div_round_positive_to_nearest, div_round_to_nearest,
}

-- A resolution 0 is undefined in C++.
unfoldable pub round_to : ℤ → ℤ → ℤ
round_to value resolution =
    int64 (quot_ℤ (int64 (value +ℤ quot resolution 2)) resolution *ℤ resolution)

unfoldable pub round_up_to : ℤ → ℤ → ℤ
round_up_to value resolution =
    int64 (quot_ℤ (int64 (int64 (value +ℤ resolution) -ℤ pos 1)) resolution *ℤ resolution)

unfoldable pub round_down_to : ℤ → ℤ → ℤ
round_down_to value resolution = int64 (quot_ℤ value resolution *ℤ resolution)

-- `ToValueOr`, `ToFractionOr` and `ToMultiple` to int64_t.
unfoldable pub to_value_or : ℤ → ℤ → ℤ
to_value_or value fallback = if is_finite value then value else fallback

unfoldable pub to_fraction_or : Bool → ℕ → ℤ → ℤ → ℤ
to_fraction_or one_sided denominator value fallback =
    if is_finite value
    then (if one_sided
        then div_round_positive_to_nearest value denominator
        else div_round_to_nearest value denominator)
    else fallback

unfoldable pub to_multiple : ℕ → ℤ → ℤ
to_multiple factor value = int64 (value *ℤ pos factor)

unfoldable pub timestamp_seconds : Timestamp → ℤ
timestamp_seconds t = div_round_positive_to_nearest t 1_000_000

unfoldable pub time_delta_seconds : TimeDelta → ℤ
time_delta_seconds t = div_round_to_nearest t 1_000_000

unfoldable pub nanoseconds : TimeDelta → ℤ
nanoseconds t = to_multiple 1000 t

unfoldable pub bytes_per_sec : DataRate → ℤ
bytes_per_sec r = div_round_positive_to_nearest r 8

-- `Abs` of a TimeDelta.
unfoldable pub abs : TimeDelta → TimeDelta
abs t = if ltb_ℤ t (pos 0) then int64 (pos 0 -ℤ t) else t

-- `ToFraction` to int64_t.
unfoldable pub to_fraction : Bool → ℕ → ℤ → ℤ
to_fraction one_sided denominator value =
    if one_sided
    then div_round_positive_to_nearest value denominator
    else div_round_to_nearest value denominator

-- `operator*` by an integer, `operator+=`, `operator-=` and `Clamp`.
unfoldable pub times : ℤ → ℤ → ℤ
times value scalar = int64 (value *ℤ scalar)

unfoldable pub add_to : ℤ → ℤ → ℤ
add_to value other = add value other

unfoldable pub subtract_from : ℤ → ℤ → ℤ
subtract_from value other = sub value other

unfoldable pub clamp : ℤ → ℤ → ℤ → ℤ
clamp value min_value max_value = clamped value min_value max_value

-- `FromFraction`, `ToFraction` and `ToMultiple` of a floating-point type, and `operator/`.
module _ {ℓ} {F : Type ℓ} ⦃fl : Double F⦄ where
  unfoldable pub from_fraction_double : ℕ → F → ℤ
  from_fraction_double denominator value = from_double (fl.mul value (fl.of_int (pos denominator)))

  unfoldable pub to_fraction_double : ℕ → ℤ → F
  to_fraction_double denominator value =
      fl.mul (to_double value) (fl.div (fl.of_int (pos 1)) (fl.of_int (pos denominator)))

  unfoldable pub to_multiple_double : ℕ → ℤ → F
  to_multiple_double factor value = fl.mul (to_double value) (fl.of_int (pos factor))

  unfoldable pub ratio : ℤ → ℤ → F
  ratio value other = fl.div (to_double value) (to_double other)

product_lem : (k r : ℕ) → pos k *ℤ pos r ≡ pos (k * r)
unfolding ◌*ℤ◌
product_lem k r = ground arith

-- A multiple below 2^63 does not wrap.
multiple_lem : (k r : ℕ) → k * r < 2 ^ 63 → int64 (pos k *ℤ pos r) ≡ pos (k * r)
multiple_lem k r small = rw (product_lem k r, int64-eq (pos (k * r)) (omega arith) (omega arith))

sum_lem : (v r : ℕ) → v + r < 2 ^ 63 → int64 (pos v +ℤ pos r) ≡ pos (v + r)
sum_lem v r small =
    let laws = +ℤ_parts (pos v) (pos r) in
    let e : pos v +ℤ pos r ≡ pos (v + r) =
      eq_of_parts (pos v +ℤ pos r) (pos (v + r)) (omega arith) in
    rw (e, int64-eq (pos (v + r)) (omega arith) (omega arith))

before_lem : (v : ℕ) → 0 < v → v < 2 ^ 63 → int64 (pos v -ℤ pos 1) ≡ pos (v - 1)
before_lem v positive small =
    let laws = -ℤ_parts (pos v) (pos 1) in
    let e : pos v -ℤ pos 1 ≡ pos (v - 1) =
      eq_of_parts (pos v -ℤ pos 1) (pos (v - 1)) (omega arith) in
    rw (e, int64-eq (pos (v - 1)) (omega arith) (omega arith))

quot-pos : (a d : ℕ) → quot (pos a) d ≡ pos (a / d)
unfolding quot
quot-pos a d = refl

quot_ℤ-pos : (a d : ℕ) → quot_ℤ (pos a) (pos d) ≡ pos (a / d)
unfolding quot_ℤ quot
quot_ℤ-pos a d = refl

-- The whole part of a quotient, as a multiple of the divisor.
quotient_lem : (a r : ℕ) → 0 < r → (a / r * r ≤ a) × (a < a / r * r + r)
quotient_lem a r positive =
    let whole = div-add-mod' a r in let part = mod-lt a positive in (omega arith, omega arith)

round_down_to-eq : (v r : ℕ) → 0 < r → v < 2 ^ 63 → round_down_to (pos v) (pos r) ≡ pos (v / r * r)
unfolding round_down_to quot_ℤ quot
round_down_to-eq v r positive small =
    let q = quotient_lem v r positive in multiple_lem (v / r) r (omega arith)

round_to-eq :
    (v r : ℕ) → 0 < r → v + r < 2 ^ 62 → round_to (pos v) (pos r) ≡ pos ((v + r / 2) / r * r)
unfolding round_to
round_to-eq v r positive small =
    let q = quotient_lem (v + r / 2) r positive in
    rw (
      quot-pos r 2,
      sum_lem v (r / 2) (omega arith),
      quot_ℤ-pos (v + r / 2) r,
      multiple_lem ((v + r / 2) / r) r (omega arith),
    )

round_up_to-eq :
    (v r : ℕ) → 0 < r → v + r < 2 ^ 62 → round_up_to (pos v) (pos r) ≡ pos ((v + r - 1) / r * r)
unfolding round_up_to
round_up_to-eq v r positive small =
    let q = quotient_lem (v + r - 1) r positive in
    rw (
      sum_lem v r (omega arith),
      before_lem (v + r) (omega arith) (omega arith),
      quot_ℤ-pos (v + r - 1) r,
      multiple_lem ((v + r - 1) / r) r (omega arith),
    )

-- A value that is not negative is between its two roundings, which are multiples of the resolution
-- less than one resolution away; the third is a multiple at most half a resolution away.
pub round-nearest :
    (v r : ℕ)
    → 0 < r
    → v + r < 2 ^ 62
    → (down : ℕ) × (up : ℕ) × (near : ℕ) × (round_down_to (pos v) (pos r) ≡ pos (down * r))
      × (round_up_to (pos v) (pos r) ≡ pos (up * r))
      × (round_to (pos v) (pos r) ≡ pos (near * r))
      × (down * r ≤ v)
      × (v < down * r + r)
      × (v ≤ up * r)
      × (up * r < v + r)
      × (2 * (near * r) ≤ 2 * v + r)
      × (2 * v ≤ 2 * (near * r) + r)
round-nearest v r positive small =
    let below = quotient_lem v r positive in
    let above = quotient_lem (v + r - 1) r positive in
    let middle = quotient_lem (v + r / 2) r positive in
    let half = quotient_lem r 2 (omega arith) in
    (
      v / r,
      (v + r - 1) / r,
      (v + r / 2) / r,
      round_down_to-eq v r positive (omega arith),
      round_up_to-eq v r positive small,
      round_to-eq v r positive small,
      below.0,
      below.1,
      omega arith,
      omega arith,
      omega arith,
      omega arith,
    )
