-- ===== src/SendSide/Loss.antt =====
-- What the loss-based estimate does with much loss.
use gcc_chrome.Common.{ℕ, ◌-◌, ◌*◌, ◌/◌, ◌^◌, ◌<◌, ◌≤◌, ◌≡◌, refl, ◌∙◌, true, false, arith, ap}
use native.Mathlib.Nat.{mul-le-mul_left}
use gcc_chrome.Common.Double.{Double}
use gcc_chrome.Common.Fixed.{Fixed, fixed}
use gcc_chrome.Common.Int.{ℤ, pos, ◌≤ℤ◌, ◌<ℤ◌, max_ℤ, ◌*ℤ◌, quot, quot_ℤ}
use gcc_chrome.Unit.{Timestamp, DataRate, add, sub, scale, millis, is_infinite, from_double}
use gcc_chrome.SendSide.{SendSide}
use gcc_chrome.SendSide.Target.{get_upper_limit, update_target_bitrate}
use gcc_chrome.SendSide.Estimate.{decreased, update_by_loss}
use gcc_chrome.SendSide.Limits.{limited, update_target_bitrate-target, update_target_bitrate-keeps}

-- What IEEE arithmetic promises of integers below 2^53: their products are exact, and so is a
-- division by 512, which truncation rounds down.
pub record IsExact {ℓ} (F : Type ℓ) ⦃fl : Double F⦄ : Type ℓ where
  pub product :
      (a b : ℕ)
      → a * b < 2 ^ 53
      → fl.mul (fl.of_int (pos a)) (fl.of_int (pos b)) ≡ fl.of_int (pos (a * b))
  pub quotient :
      (a : ℕ)
      → a < 2 ^ 53
      → fl.to_int (fl.div (fl.of_int (pos a)) (fl.of_int (pos 512))) ≡ pos (a / 512)
  pub below_infinity :
      (a : ℕ)
      → a < 2 ^ 53
      → fl.eq (fl.div (fl.of_int (pos a)) (fl.of_int (pos 512))) fl.infinity ≡ false
  pub above_infinity :
      (a : ℕ)
      → a < 2 ^ 53
      → fl.eq (fl.div (fl.of_int (pos a)) (fl.of_int (pos 512))) fl.minus_infinity ≡ false

times_million : (a b : ℕ) → a * 1_000_000 * (b * 1_000_000) / 1_000_000 ≡ a * b * 1_000_000
times_million a b = grind arith

pub fixed-IsExact : IsExact Fixed
unfolding fixed ◌*ℤ◌ quot quot_ℤ
fixed-IsExact = record {
  product = λ a b h. ground (arith, times_million a b);
  quotient = λ a h. ground arith;
  below_infinity = λ a h. ground arith;
  above_infinity = λ a h. ground arith;
}

module _ {ℓ} (F : Type ℓ) ⦃fl : Double F⦄ where
  decreased-eq :
      (r fraction : ℕ)
      → IsExact F
      → r * (512 - fraction) < 2 ^ 53
      → decreased F (pos r) fraction ≡ pos (r * (512 - fraction) / 512)
  unfolding decreased from_double
  decreased-eq r fraction x h =
      rw
        (
          x.product r (512 - fraction) h,
          x.below_infinity (r * (512 - fraction)) h,
          x.above_infinity (r * (512 - fraction)) h,
        )
        (x.quotient (r * (512 - fraction)) h)

  cut_le : (r fraction : ℕ) → r * (512 - fraction) / 512 ≤ r
  cut_le r fraction = omega (arith, mul-le-mul_left {m = 512 - fraction} {n = 512} r (omega arith))

  limited_le : (s : SendSide F) (a b : ℤ) → a ≤ℤ b → limited s a ≤ℤ max_ℤ b s.min_bitrate_configured
  limited_le s a b h = ground arith

  cuts :
      (s : SendSide F) (at_time : Timestamp)
      → pos 0 <ℤ s.current_target
      → 26 ≤ s.last_fraction_loss
      → is_infinite s.last_loss_packet_report ≡ false
      → sub at_time s.last_loss_packet_report <ℤ scale (millis 5000) (fl.decimal (pos 12) 1)
      → s.has_decreased_since_last_fraction_loss ≡ false
      → add (millis 300) s.last_round_trip_time ≤ℤ sub at_time s.time_last_decrease
      → update_by_loss s at_time
        ≡ update_target_bitrate
            (record s {
              time_last_decrease = at_time;
              has_decreased_since_last_fraction_loss = true;
            })
            (decreased F s.current_target s.last_fraction_loss)
            at_time
  unfolding update_by_loss
  cuts s at_time positive lossy heard recent first waited = ground arith

  limited-marked :
      (s : SendSide F) (at_time : Timestamp) (rate : DataRate)
      → limited
          (record s { time_last_decrease = at_time; has_decreased_since_last_fraction_loss = true })
          rate
        ≡ limited s rate
  unfolding get_upper_limit
  limited-marked s at_time rate = refl

  -- With a loss above 10%, a loss report in the last six seconds by the source's measure, no decrease
  -- since that report and none in the last 300 milliseconds and a round trip, the rate is cut by half
  -- the loss, to rate * (512 - fraction) / 512, in its limits; the target does not rise, except to the
  -- configured minimum; and the decrease is remembered. The arithmetic of the doubles is exact on
  -- these integers.
  pub update_by_loss-cuts :
      (s : SendSide F) (at_time : Timestamp) (r : ℕ)
      → IsExact F
      → s.current_target ≡ pos r
      → 0 < r
      → r * (512 - s.last_fraction_loss) < 2 ^ 53
      → 26 ≤ s.last_fraction_loss
      → is_infinite s.last_loss_packet_report ≡ false
      → sub at_time s.last_loss_packet_report <ℤ scale (millis 5000) (fl.decimal (pos 12) 1)
      → s.has_decreased_since_last_fraction_loss ≡ false
      → add (millis 300) s.last_round_trip_time ≤ℤ sub at_time s.time_last_decrease
      → let after = update_by_loss s at_time in
        (after.current_target ≡ limited s (pos (r * (512 - s.last_fraction_loss) / 512)))
        × (after.current_target ≤ℤ max_ℤ s.current_target s.min_bitrate_configured)
        × (after.has_decreased_since_last_fraction_loss ≡ true)
  update_by_loss-cuts s at_time r x e positive small lossy heard recent first waited =
      let marked = record s {
        time_last_decrease = at_time;
        has_decreased_since_last_fraction_loss = true;
      } in
      let cut =
        ap (λ c. decreased F c s.last_fraction_loss) e
        ∙ decreased-eq r s.last_fraction_loss x small in
      let ends = cuts s at_time (ground arith) lossy heard recent first waited in
      let rate = pos (r * (512 - s.last_fraction_loss) / 512) in
      let target =
        ap (λ a. a.current_target) ends
        ∙ update_target_bitrate-target marked (decreased F s.current_target s.last_fraction_loss)
            at_time
        ∙ limited-marked s at_time (decreased F s.current_target s.last_fraction_loss)
        ∙ ap (limited s) cut in
      (
        target,
        rw target
            (limited_le s rate s.current_target (ground (arith, e, cut_le r s.last_fraction_loss))),
        ap (λ a. a.has_decreased_since_last_fraction_loss) ends
            ∙ (update_target_bitrate-keeps marked
                (decreased F s.current_target s.last_fraction_loss) at_time).6,
      )
