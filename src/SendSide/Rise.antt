-- ===== src/SendSide/Rise.antt =====
-- What the loss-based estimate does with little loss: it raises the smallest target of the last second.
use gcc_chrome.Common.{
  ℕ, ◌+◌, ◌*◌, ◌/◌, ◌^◌, ◌<◌, ◌≤◌, ◌≡◌, refl, ◌⊎◌, inl, inr, ◌∙◌, ap, true, false, Bool, ◌&&◌, ◌||◌,
  ◌==◌, List, [], ◌∷◌, ◌++◌, arith,
}
use mathlib.Core.Path.{subst}
use gcc_chrome.Common.Double.{Double}
use gcc_chrome.Common.Fixed.{Fixed, fixed}
use gcc_chrome.Common.Int.{ℤ, ltb_ℤ, pos, pos_part, neg_part, ◌≤ℤ◌, ◌<ℤ◌, ◌+ℤ◌, ◌*ℤ◌, quot}
use gcc_chrome.Common.Lists.{All}
use gcc_chrome.Unit.{Timestamp, DataRate, sub, scale, millis, is_infinite, from_double}
use gcc_chrome.Unit.Exact.{IsClock, add-eq}
use gcc_chrome.SendSide.{SendSide}
use gcc_chrome.SendSide.Target.{get_upper_limit, is_in_start_phase, update_target_bitrate}
use gcc_chrome.SendSide.Estimate.{
  Entry, is_old, is_low_loss, increased, front_rate, update_min_history, update_by_loss,
  update_estimate,
}
use gcc_chrome.SendSide.History.{time, rate, Any, IsOrdered}
use gcc_chrome.SendSide.Limits.{limited, update_target_bitrate-target}
use gcc_chrome.SendSide.Window.{remember, front-is-minimum}

-- What IEEE arithmetic gives for integers below 2^40: the error of `a * 1.08 + 0.5` is below 1/100, and
-- the exact value is no integer, so that truncation rounds it down.
pub record IsRaised {ℓ} (F : Type ℓ) ⦃fl : Double F⦄ : Type ℓ where
  pub raised :
      (a : ℕ)
      → a < 2 ^ 40
      → fl.to_int
          (fl.add (fl.mul (fl.of_int (pos a)) (fl.decimal (pos 108) 2)) (fl.decimal (pos 5) 1))
        ≡ pos ((108 * a + 50) / 100)
  pub below_infinity :
      (a : ℕ)
      → a < 2 ^ 40
      → fl.eq
          (fl.add (fl.mul (fl.of_int (pos a)) (fl.decimal (pos 108) 2)) (fl.decimal (pos 5) 1))
          fl.infinity
        ≡ false
  pub above_infinity :
      (a : ℕ)
      → a < 2 ^ 40
      → fl.eq
          (fl.add (fl.mul (fl.of_int (pos a)) (fl.decimal (pos 108) 2)) (fl.decimal (pos 5) 1))
          fl.minus_infinity
        ≡ false

pub fixed-IsRaised : IsRaised Fixed
unfolding fixed ◌*ℤ◌ ◌+ℤ◌ quot
fixed-IsRaised = record {
  raised = λ a h. ground arith;
  below_infinity = λ a h. ground arith;
  above_infinity = λ a h. ground arith;
}

-- A rate of less than 2^40 bits per second.
abbrev pub IsRate : Entry → Type 0
IsRate e = (neg_part (rate e) ≡ 0) × (pos_part (rate e) < 2 ^ 40)

pos-eq : (z : ℤ) → neg_part z ≡ 0 → z ≡ pos (pos_part z)
pos-eq z h = ground arith

-- The smallest rate of the last second, as a number.
Any-rate :
    (P : Entry → Type 0) (front : DataRate) (es : List Entry)
    → Any (λ e. P e × (front ≡ rate e)) es
    → All IsRate es
    → (front ≡ pos (pos_part front)) × (pos_part front < 2 ^ 40)
Any-rate P front [] a h = elim a [ ]
Any-rate P front (e ∷ es) (inl (p, same)) (h, hs) = ground (arith, pos-eq front)
Any-rate P front (e ∷ es) (inr a) (h, hs) = Any-rate P front es a hs

and_false : (b : Bool) → (b && false) ≡ false
and_false b = ground arith

or_true : (b : Bool) → (b || true) ≡ true
or_true b = ground arith

module _ {ℓ} (F : Type ℓ) ⦃fl : Double F⦄ where
  increased-eq :
      (a : ℕ) → IsRaised F → a < 2 ^ 40 → increased F (pos a) ≡ pos ((108 * a + 50) / 100 + 1000)
  unfolding increased from_double
  increased-eq a x small =
      rw (x.below_infinity a small, x.above_infinity a small, x.raised a small)
        (add-eq (pos ((108 * a + 50) / 100)) (pos 1000) (refl, omega arith) (refl, omega arith))

  by_loss :
      (s : SendSide F) (now : Timestamp)
      → s.last_fraction_loss ≤ 5
      → is_infinite s.last_loss_packet_report ≡ false
      → sub now s.last_loss_packet_report <ℤ scale (millis 5000) (fl.decimal (pos 12) 1)
      → update_by_loss s now
        ≡ update_target_bitrate s
            (increased F (front_rate s.current_target s.min_bitrate_history))
            now
  unfolding update_by_loss
  by_loss s now low heard recent =
      let little : is_low_loss s.last_fraction_loss ≡ true = ground arith in
      let late : ltb_ℤ (sub now s.last_loss_packet_report)
            (scale (millis 5000) (fl.decimal (pos 12) 1))
          ≡ true =
        ground arith in
      rw (heard, late, little, or_true (ltb_ℤ s.current_target (pos 0))) refl

  rises :
      (s : SendSide F) (now : Timestamp)
      → s.last_fraction_loss ≤ 5
      → is_in_start_phase s now ≡ false
      → is_infinite s.last_loss_packet_report ≡ false
      → sub now s.last_loss_packet_report <ℤ scale (millis 5000) (fl.decimal (pos 12) 1)
      → let history = update_min_history s.min_bitrate_history s.current_target now in
        update_estimate s now
        ≡ update_target_bitrate
            (record s { min_bitrate_history = history })
            (increased F (front_rate s.current_target history))
            now
  unfolding update_estimate
  rises s now low started heard recent =
      let history = update_min_history s.min_bitrate_history s.current_target now in
      rw (started, and_false (s.last_fraction_loss == 0))
        (by_loss (record s { min_bitrate_history = history }) now low heard recent)

  -- With a loss of at most 2%, a loss report in the last six seconds by the source's measure, and after
  -- the start phase, the new target is 1.08 times the smallest target rate of the last second, which
  -- is one of the rates pushed to the history and no more than any other that is not old yet,
  -- rounded, and 1 kbps more, in its limits. The history is that of pushes whose clock never went back,
  -- with the current target the last, of rates below 2^40 bits per second; and the doubles round
  -- 1.08 times such a rate exactly.
  pub update_estimate-rises :
      (s : SendSide F) (samples : List Entry) (now : Timestamp)
      → IsRaised F
      → s.min_bitrate_history ≡ remember [] samples
      → IsClock now
      → IsOrdered (pos 0) samples now
      → All IsRate (samples ++ (now, s.current_target) ∷ [])
      → s.last_fraction_loss ≤ 5
      → is_in_start_phase s now ≡ false
      → is_infinite s.last_loss_packet_report ≡ false
      → sub now s.last_loss_packet_report <ℤ scale (millis 5000) (fl.decimal (pos 12) 1)
      → let pushed = samples ++ (now, s.current_target) ∷ [] in
        (least : ℕ) × ((update_estimate s now).current_target
          ≡ limited s (pos ((108 * least + 50) / 100 + 1000)))
        × All (λ e. (is_old now (time e) ≡ true) ⊎ (pos least ≤ℤ rate e)) pushed
        × Any (λ e. (is_old now (time e) ≡ false) × (pos least ≡ rate e)) pushed
  unfolding get_upper_limit
  update_estimate-rises s samples now x e clock ordered rates low started heard recent =
      let pushed = samples ++ (now, s.current_target) ∷ [] in
      let front =
        front_rate s.current_target
          (update_min_history (remember [] samples) s.current_target now) in
      let (below, found) = front-is-minimum samples now s.current_target clock ordered in
      let (number, small) = Any-rate (λ e. is_old now (time e) ≡ false) front pushed found rates in
      let history = update_min_history s.min_bitrate_history s.current_target now in
      let before = record s { min_bitrate_history = history } in
      let same =
        ap (λ h. front_rate s.current_target (update_min_history h s.current_target now)) e in
      let target =
        ap (λ r. r.current_target) (rises s now low started heard recent)
        ∙ update_target_bitrate-target before (increased F (front_rate s.current_target history))
            now
        ∙ ap (λ b. limited s (increased F b)) (same ∙ number)
        ∙ ap (limited s) (increased-eq (pos_part front) x small) in
      (
        pos_part front,
        target,
        subst (λ b. All (λ e. (is_old now (time e) ≡ true) ⊎ (b ≤ℤ rate e)) pushed) number below,
        subst (λ b. Any (λ e. (is_old now (time e) ≡ false) × (b ≡ rate e)) pushed) number found,
      )
