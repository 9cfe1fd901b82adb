-- ===== src/Trendline/Detection.antt =====
-- When the trendline estimator signals overuse.
use gcc_chrome.Common.{◌≤◌, ◌≡◌, ◌≢◌, ap, true, inl, inr, Option-cases, some, arith}
use gcc_chrome.Common.Double.{Double}
use gcc_chrome.Common.Int.{ℤ}
use gcc_chrome.Aimd.{overusing}
use gcc_chrome.Trendline.{Trendline, Sample}
use gcc_chrome.Trendline.Update.{
  modified_trend_of, detect, add_sample, trend_of, update_trendline, update,
}
use gcc_chrome.Trendline.History.{detect-keeps}

module _ {ℓ} {F : Type ℓ} ⦃fl : Double F⦄ where
  -- The sample's trend is above the threshold.
  abbrev pub IsAbove : Trendline F → Sample F → Type ℓ
  IsAbove s sample =
      let added = add_sample s sample in
      (trend : F) × (trend_of added.settings added.delay_hist added.prev_trend ≡ some trend)
      × (fl.lt s.threshold (modified_trend_of added trend) ≡ true)

  detect-overusing :
      (s : Trendline F) (trend ts_delta : F) (now_ms : ℤ)
      → 2 ≤ s.num_of_deltas
      → let r = detect s trend ts_delta now_ms in
        let above = fl.lt s.threshold (modified_trend_of s trend) in
        (r.hypothesis ≡ overusing → above ≡ true)
        × (1 ≤ r.overuse_counter → above ≡ true)
        × (s.hypothesis ≢ overusing → r.hypothesis ≡ overusing → 1 ≤ s.overuse_counter)
  unfolding detect
  detect-overusing s trend ts_delta now_ms h = ground arith

  pub update_trendline-some :
      (s r : Trendline F) (sample : Sample F)
      → update_trendline s sample ≡ some r
      → let added = add_sample s sample in
        (trend : F) × (trend_of added.settings added.delay_hist added.prev_trend ≡ some trend)
        × (r ≡ detect added trend sample.send_delta_ms sample.arrival_ms)
  unfolding update_trendline
  update_trendline-some s r sample e =
      let added = add_sample s sample in
      elim (Option-cases (trend_of added.settings added.delay_hist added.prev_trend)) [
        | inl fault ↦ ground arith
        | inr (trend, known) ↦ (trend, known, ground arith)
      ]

  add_sample-keeps :
      (s : Trendline F) (sample : Sample F)
      → let r = add_sample s sample in
        (r.threshold ≡ s.threshold)
        × (r.hypothesis ≡ s.hypothesis)
        × (r.overuse_counter ≡ s.overuse_counter)
        × (1 ≤ s.num_of_deltas → 2 ≤ r.num_of_deltas)
  unfolding add_sample
  add_sample-keeps s sample = ground arith

  -- What one sample after the first makes of the hypothesis and of the counter.
  update_trendline-overusing :
      (s r : Trendline F) (sample : Sample F)
      → 1 ≤ s.num_of_deltas
      → update_trendline s sample ≡ some r
      → (r.hypothesis ≡ overusing → IsAbove s sample)
        × (1 ≤ r.overuse_counter → IsAbove s sample)
        × (s.hypothesis ≢ overusing → r.hypothesis ≡ overusing → 1 ≤ s.overuse_counter)
  update_trendline-overusing s r sample h e =
      let (trend, known, same) = update_trendline-some s r sample e in
      let (threshold, hypothesis, counter, more) = add_sample-keeps s sample in
      let (a, b, c) =
        detect-overusing (add_sample s sample) trend sample.send_delta_ms sample.arrival_ms
          (more h) in
      (λ o. (trend, known, ground arith), λ o. (trend, known, ground arith), λ n o. ground arith)

  update_trendline-counts :
      (s r : Trendline F) (sample : Sample F)
      → 1 ≤ s.num_of_deltas
      → update_trendline s sample ≡ some r
      → 1 ≤ r.num_of_deltas
  update_trendline-counts s r sample h e =
      let (trend, known, same) = update_trendline-some s r sample e in
      let added = add_sample s sample in
      let (_, _, _, more) = add_sample-keeps s sample in
      let (_, _, kept, _, _, _) = detect-keeps added trend sample.send_delta_ms sample.arrival_ms in
      omega (arith, more h, kept, ap (λ (q : Trendline F). q.num_of_deltas) same)

module _ {ℓ} (F : Type ℓ) ⦃fl : Double F⦄ where
  -- When an update with deltas signals overuse that was not signalled before it, both its sample and
  -- the one before had a trend above the threshold, unless they include the first sample of all: a
  -- single high sample signals nothing.
  pub overuse_needs_two :
      (s r t : Trendline F) (a b : Sample F)
      → 1 ≤ s.num_of_deltas
      → update s a true ≡ some r
      → update r b true ≡ some t
      → r.hypothesis ≢ overusing
      → t.hypothesis ≡ overusing
      → IsAbove s a × IsAbove r b
  unfolding update
  overuse_needs_two s r t a b h ea eb calm over =
      let (_, first, _) = update_trendline-overusing s r a h ea in
      let (second, _, counted) =
        update_trendline-overusing r t b (update_trendline-counts s r a h ea) eb in
      (first (counted calm over), second over)
