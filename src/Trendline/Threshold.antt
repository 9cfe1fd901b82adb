-- ===== src/Trendline/Threshold.antt =====
-- The adaptive threshold of the trendline estimator.
use gcc_chrome.Common.{◌≡◌, Bool, true, false, some, List, [], ◌∷◌, arith, inl, inr, Option-cases}
use gcc_chrome.Common.Double.{Double}
use gcc_chrome.Common.Int.{ℤ, pos}
use gcc_chrome.LinkCapacity.{int_double}
use gcc_chrome.Trendline.{Trendline, Sample, new_trendline}
use gcc_chrome.Trendline.Update.{
  detect, update_threshold, judge, modified_trend_of, add_sample, update,
}
use gcc_chrome.Trendline.History.{run}
use gcc_chrome.Trendline.Detection.{update_trendline-some}

module _ {ℓ} (F : Type ℓ) ⦃fl : Double F⦄ where
  -- What is asked of the comparison of `double`: the limits and the initial threshold are in order.
  pub record IsOrdered : Type 0 where
    pub least : fl.lt (int_double 6) (int_double 6) ≡ false
    pub most : fl.lt (int_double 600) (int_double 600) ≡ false
    pub order : fl.lt (int_double 600) (int_double 6) ≡ false
    pub start_low : fl.lt (fl.decimal (pos 125) 1) (int_double 6) ≡ false
    pub start_high : fl.lt (int_double 600) (fl.decimal (pos 125) 1) ≡ false

module _ {ℓ} {F : Type ℓ} ⦃fl : Double F⦄ where
  -- The threshold is neither below 6 nor above 600.
  abbrev pub IsInRange : Trendline F → Type 0
  IsInRange s =
      (fl.lt s.threshold (int_double 6) ≡ false) × (fl.lt (int_double 600) s.threshold ≡ false)

  update_threshold-IsInRange :
      (s : Trendline F) (modified_trend : F) (now_ms : ℤ)
      → IsOrdered F
      → IsInRange s
      → IsInRange (update_threshold s modified_trend now_ms)
  unfolding update_threshold
  update_threshold-IsInRange s modified_trend now_ms o h = ground arith

  detect-IsInRange :
      (s : Trendline F) (trend ts_delta : F) (now_ms : ℤ)
      → IsOrdered F
      → IsInRange s
      → IsInRange (detect s trend ts_delta now_ms)
  unfolding detect
  detect-IsInRange s trend ts_delta now_ms o h = ground (
    arith,
    update_threshold-IsInRange
        (record (judge s (modified_trend_of s trend) trend ts_delta) { prev_trend = trend })
        (modified_trend_of s trend) now_ms o,
  )

  update-IsInRange :
      (s r : Trendline F) (sample : Sample F) (calculated : Bool)
      → IsOrdered F
      → IsInRange s
      → update s sample calculated ≡ some r
      → IsInRange r
  unfolding update add_sample
  update-IsInRange s r sample true o h e =
      let (trend, known, same) = update_trendline-some s r sample e in
      let added = add_sample s sample in
      rw same (detect-IsInRange added trend sample.send_delta_ms sample.arrival_ms o h)
  update-IsInRange s r sample false o h e = ground arith

  run-IsInRange :
      (s r : Trendline F) (es : List (Sample F × Bool))
      → IsOrdered F
      → IsInRange s
      → run s es ≡ some r
      → IsInRange r
  unfolding run
  run-IsInRange s r [] o h e = ground arith
  run-IsInRange s r ((sample, calculated) ∷ es) o h e =
      elim (Option-cases (update s sample calculated)) [
        | inl fault ↦ ground arith
        | inr (t, e') ↦
            run-IsInRange t r es o (update-IsInRange s t sample calculated o h e')
              (rw (e', run) at e)
      ]

module _ {ℓ} (F : Type ℓ) ⦃fl : Double F⦄ where
  -- The threshold of an estimator that has run over any samples from its start is neither below 6
  -- nor above 600, when the comparison puts the limits and the initial threshold in order.
  pub threshold-range :
      (has_predictor : Bool) (es : List (Sample F × Bool)) (r : Trendline F)
      → IsOrdered F
      → run (new_trendline has_predictor) es ≡ some r
      → (fl.lt r.threshold (int_double 6) ≡ false) × (fl.lt (int_double 600) r.threshold ≡ false)
  unfolding new_trendline
  threshold-range has_predictor es r o e =
      run-IsInRange (new_trendline has_predictor) r es o (o.start_low, o.start_high) e
