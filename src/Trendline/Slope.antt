-- ===== src/Trendline/Slope.antt =====
-- LinearFitSlope and ComputeSlopeCap of google_cc/trendline_estimator.cc.
use gcc_chrome.Common.{
  ℕ, zero, suc, ◌+◌, ◌-◌, ◌%◌, ◌^◌, Option, none, some, List, [], ◌∷◌, if◌then◌else◌,
}
use gcc_chrome.Common.Double.{Double}
use gcc_chrome.Common.Lists.{length, get_elem?}
use gcc_chrome.LinkCapacity.{int_double}
use gcc_chrome.Trendline.{Settings, PacketTiming}

module _ {ℓ} {F : Type ℓ} ⦃fl : Double F⦄ where
  -- The two loops of `LinearFitSlope`.
  unfoldable pub sums : List (PacketTiming F) → F → F → F × F
  sums [] x y = (x, y)
  sums (p ∷ ps) x y = sums ps (fl.add x p.arrival_time_ms) (fl.add y p.smoothed_delay_ms)

  unfoldable pub moments : F → F → List (PacketTiming F) → F → F → F × F
  moments x_avg y_avg [] n d = (n, d)
  moments x_avg y_avg (p ∷ ps) n d =
      let dx = fl.sub p.arrival_time_ms x_avg in
      let dy = fl.sub p.smoothed_delay_ms y_avg in
      moments x_avg y_avg ps (fl.add n (fl.mul dx dy)) (fl.add d (fl.mul dx dx))

  unfoldable pub linear_fit_slope : List (PacketTiming F) → Option F
  unfolding sums moments
  linear_fit_slope packets =
      let (sum_x, sum_y) = sums packets (int_double 0) (int_double 0) in
      let size = int_double (length packets) in
      let (numerator, denominator) =
        moments (fl.div sum_x size) (fl.div sum_y size) packets (int_double 0) (int_double 0) in
      if fl.eq denominator (int_double 0) then none else some (fl.div numerator denominator)

  -- The packet of the smallest raw delay among `best` and the `n` packets from index `i` on; `none`
  -- is an access outside the queue.
  unfoldable pub least_delay :
      List (PacketTiming F) → ℕ → ℕ → PacketTiming F → Option (PacketTiming F)
  least_delay packets zero i best = some best
  least_delay packets (suc n) i best = elim (get_elem? packets i) [
    | none ↦ none
    | some p ↦
        least_delay packets n (i + 1) (if fl.lt p.raw_delay_ms best.raw_delay_ms then p else best)
  ]

  -- The loop from `i` to before `last`, on a copy of the packet before `i`.
  unfoldable pub least_between : List (PacketTiming F) → ℕ → ℕ → Option (PacketTiming F)
  unfolding least_delay
  least_between packets first last = elim (get_elem? packets first) [
    | none ↦ none
    | some p ↦ least_delay packets (last - (first + 1)) (first + 1) p
  ]

  -- What is returned, under what is read: `none` is an access outside the queue.
  unfoldable pub compute_slope_cap : List (PacketTiming F) → Settings F → Option (Option F)
  unfolding least_between
  compute_slope_cap packets settings = elim (least_between packets 0 settings.beginning_packets) [
    | none ↦ none
    | some early ↦
        elim (least_between packets ((length packets + 2 ^ 64 - settings.end_packets) % 2 ^ 64)
          (length packets)) [
            | none ↦ none
            | some late ↦
                let time = fl.sub late.arrival_time_ms early.arrival_time_ms in
                some (
                  if fl.lt time (int_double 1)
                  then none
                  else some (
                      fl.add (fl.div (fl.sub late.raw_delay_ms early.raw_delay_ms) time)
                        settings.cap_uncertainty))
          ]
  ]
