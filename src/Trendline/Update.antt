-- ===== src/Trendline/Update.antt =====
-- The updates of google_cc/trendline_estimator.cc: the window of packets, the detection of overuse and
-- the adaptive threshold.
use gcc_chrome.Common.{
  ◌+◌, Bool, ◌&&◌, Option, none, some, List, [], ◌∷◌, ◌++◌, ltb, ◌==◌, if◌then◌else◌,
}
use gcc_chrome.Common.Double.{Double}
use gcc_chrome.Common.Int.{ℤ, pos, ◌-ℤ◌, int64, eqb_ℤ, min_ℤ}
use gcc_chrome.Common.Lists.{length}
use gcc_chrome.Aimd.{BandwidthUsage, normal, underusing, overusing, value_or}
use gcc_chrome.LinkCapacity.{safe_clamp, int_double}
use mathlib.Core.List.{reverse}
use gcc_chrome.Trendline.{
  Settings, PacketTiming, Trendline, Sample, min_num_deltas, delta_counter_max, minus_one, min_ℕ,
}
use gcc_chrome.Trendline.Slope.{linear_fit_slope, compute_slope_cap}

abbrev pub pop_front {ℓ} : {A : Type ℓ} → List A → List A
pop_front [] = []
pop_front (x ∷ xs) = xs

module _ {ℓ} {F : Type ℓ} ⦃fl : Double F⦄ where
  -- The loop that moves the newest packet before later ones, on the reversed queue.
  unfoldable pub sift : PacketTiming F → List (PacketTiming F) → List (PacketTiming F)
  sift p [] = p ∷ []
  sift p (q ∷ qs) =
      let rest = sift p qs in
      if fl.lt p.arrival_time_ms q.arrival_time_ms then q ∷ rest else p ∷ q ∷ qs

  unfoldable pub push_timing :
      Settings F → List (PacketTiming F) → PacketTiming F → List (PacketTiming F)
  unfolding sift
  push_timing settings hist p =
      let pushed =
        if settings.enable_sort then reverse (sift p (reverse hist)) else hist ++ p ∷ [] in
      if ltb settings.window_size (length pushed) then pop_front pushed else pushed

  unfoldable pub capped : F → Option F → F
  capped trend none = trend
  capped trend (some cap) = if fl.le (int_double 0) trend && fl.lt cap trend then cap else trend

  -- The slope for `Detect`.
  unfoldable pub trend_of : Settings F → List (PacketTiming F) → F → Option F
  trend_of settings hist prev_trend =
      let trend = value_or (linear_fit_slope hist) prev_trend in
      if length hist == settings.window_size
      then (if settings.enable_cap
          then elim (compute_slope_cap hist settings) [
            | none ↦ none
            | some cap ↦ some (capped trend cap)
          ]
          else some trend)
      else some prev_trend

  unfoldable pub update_threshold : Trendline F → F → ℤ → Trendline F
  unfolding ◌-ℤ◌ int64
  update_threshold s modified_trend now_ms =
      let last = if eqb_ℤ s.last_update_ms minus_one then now_ms else s.last_update_ms in
      let size = fl.fabs modified_trend in
      let k = if fl.lt size s.threshold then fl.decimal (pos 39) 3 else fl.decimal (pos 87) 4 in
      let time = min_ℤ (int64 (now_ms -ℤ last)) (pos 100) in
      let moved =
        fl.add s.threshold (fl.mul (fl.mul k (fl.sub size s.threshold)) (fl.of_int time)) in
      if fl.lt (fl.add s.threshold (int_double 15)) size
      then record s { last_update_ms = now_ms }
      else record s {
        threshold = safe_clamp moved (int_double 6) (int_double 600);
        last_update_ms = now_ms;
      }

  unfoldable pub modified_trend_of : Trendline F → F → F
  modified_trend_of s trend =
      fl.mul (fl.mul (int_double (min_ℕ s.num_of_deltas min_num_deltas)) trend) (int_double 4)

  -- A trend above the threshold: the counters, and what they make of the hypothesis.
  unfoldable pub over_threshold : Trendline F → F → F → Trendline F
  over_threshold s trend ts_delta =
      let time =
        if fl.eq s.time_over_using (fl.of_int minus_one)
        then fl.div ts_delta (int_double 2)
        else fl.add s.time_over_using ts_delta in
      let counter = s.overuse_counter + 1 in
      if fl.lt (int_double 10) time && ltb 1 counter && fl.le s.prev_trend trend
      then record s { time_over_using = int_double 0; overuse_counter = 0; hypothesis = overusing }
      else record s { time_over_using = time; overuse_counter = counter }

  abbrev within : Trendline F → BandwidthUsage → Trendline F
  within s usage = record s {
    time_over_using = fl.of_int minus_one;
    overuse_counter = 0;
    hypothesis = usage;
  }

  -- The branches of `Detect` on the modified trend.
  unfoldable pub judge : Trendline F → F → F → F → Trendline F
  unfolding over_threshold
  judge s modified_trend trend ts_delta =
      if fl.lt s.threshold modified_trend
      then over_threshold s trend ts_delta
      else if fl.lt modified_trend (fl.neg s.threshold)
      then within s underusing
      else within s normal

  unfoldable pub detect : Trendline F → F → F → ℤ → Trendline F
  unfolding update_threshold modified_trend_of judge
  detect s trend ts_delta now_ms =
      if ltb s.num_of_deltas 2
      then record s { hypothesis = normal }
      else let modified_trend = modified_trend_of s trend in
        let judged = record (judge s modified_trend trend ts_delta) { prev_trend = trend } in
        update_threshold judged modified_trend now_ms

  -- `UpdateTrendline` up to the window of packets.
  unfoldable pub add_sample : Trendline F → Sample F → Trendline F
  unfolding push_timing ◌-ℤ◌ int64
  add_sample s sample =
      let first =
        if eqb_ℤ s.first_arrival_time_ms minus_one
        then sample.arrival_ms
        else s.first_arrival_time_ms in
      let coef = fl.decimal (pos 9) 1 in
      let accumulated =
        fl.add s.accumulated_delay (fl.sub sample.recv_delta_ms sample.send_delta_ms) in
      let smoothed =
        fl.add (fl.mul coef s.smoothed_delay) (fl.mul (fl.sub (int_double 1) coef) accumulated) in
      record s {
        num_of_deltas = min_ℕ (s.num_of_deltas + 1) delta_counter_max;
        first_arrival_time_ms = first;
        accumulated_delay = accumulated;
        smoothed_delay = smoothed;
        delay_hist = push_timing s.settings s.delay_hist (record {
          arrival_time_ms = fl.of_int (int64 (sample.arrival_ms -ℤ first));
          smoothed_delay_ms = smoothed;
          raw_delay_ms = accumulated;
        });
      }

  unfoldable pub update_trendline : Trendline F → Sample F → Option (Trendline F)
  update_trendline s sample =
      let added = add_sample s sample in
      elim (trend_of added.settings added.delay_hist added.prev_trend) [
        | none ↦ none
        | some trend ↦ some (detect added trend sample.send_delta_ms sample.arrival_ms)
      ]

  unfoldable pub update : Trendline F → Sample F → Bool → Option (Trendline F)
  update s sample calculated_deltas =
      if calculated_deltas then update_trendline s sample else some s

  unfoldable pub state : Trendline F → BandwidthUsage
  state s = if s.has_predictor then s.hypothesis_predicted else s.hypothesis
