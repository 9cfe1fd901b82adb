-- ===== src/Trendline/History.antt =====
-- The window of packets of the trendline estimator, and the accesses to it.
use gcc_chrome.Common.{
  ℕ, zero, suc, ◌+◌, ◌-◌, ◌%◌, ◌^◌, ◌≤◌, ◌<◌, ◌≡◌, ◌≢◌, ◌∙◌, ap, refl, Bool, true, false, ◌==◌,
  Bool-cases, inl, inr, Option, none, some, List, [], ◌∷◌, ◌++◌, arith,
}
use gcc_chrome.Common.Double.{Double}
use gcc_chrome.Common.Lists.{length, length-append, get_elem?}
use gcc_chrome.Trendline.{
  Settings, PacketTiming, Trendline, Sample, checked, initial_settings, new_trendline,
  delta_counter_max,
}
use gcc_chrome.Trendline.Slope.{least_delay, least_between, compute_slope_cap}
use gcc_chrome.Trendline.Update.{
  pop_front, sift, push_timing, trend_of, add_sample, detect, update_trendline, update,
}
use gcc_chrome.Common.Int.{ℤ}
use gcc_chrome.Aimd.{normal, last}
use mathlib.Core.List.{reverse, reverse_aux}

module _ {ℓ} {A : Type ℓ} where
  get_elem?-total : (xs : List A) (i : ℕ) → i < length xs → (a : A) × (get_elem? xs i ≡ some a)
  get_elem?-total [] i h = absurd (omega arith)
  get_elem?-total (x ∷ xs) zero h = (x, refl)
  get_elem?-total (x ∷ xs) (suc i) h = get_elem?-total xs i (omega arith)

  length-reverse_aux : (xs ys : List A) → length (reverse_aux xs ys) ≡ length xs + length ys
  length-reverse_aux [] ys = omega arith
  length-reverse_aux (x ∷ xs) ys = omega (arith, length-reverse_aux xs (x ∷ ys))

  length-reverse : (xs : List A) → length (reverse xs) ≡ length xs
  length-reverse xs = omega (arith, length-reverse_aux xs [])

  length-pop_front : (xs : List A) → length (pop_front xs) ≡ length xs - 1
  length-pop_front [] = omega arith
  length-pop_front (x ∷ xs) = omega arith

module _ {ℓ} {F : Type ℓ} ⦃fl : Double F⦄ where
  -- What the constructor of the settings establishes.
  pub record IsChecked (s : Settings F) : Type 0 where
    pub window : 10 ≤ s.window_size
    pub small : s.window_size ≤ 200
    pub begins : s.enable_cap ≡ true → 1 ≤ s.beginning_packets
    pub ends : s.enable_cap ≡ true → 1 ≤ s.end_packets
    pub fits : s.enable_cap ≡ true → s.beginning_packets + s.end_packets ≤ s.window_size

  pub checked-IsChecked : (s : Settings F) → IsChecked (checked s)
  unfolding checked
  checked-IsChecked s = ground arith

  least_delay-total :
      (packets : List (PacketTiming F)) (n i : ℕ) (best : PacketTiming F)
      → i + n ≤ length packets
      → (p : PacketTiming F) × (least_delay packets n i best ≡ some p)
  unfolding least_delay
  least_delay-total packets zero i best h = (best, refl)
  least_delay-total packets (suc n) i best h =
      let (p, e) = get_elem?-total packets i (omega arith) in
      rw (e, least_delay) (least_delay-total packets n (i + 1) _ (omega arith))

  least_between-total :
      (packets : List (PacketTiming F)) (first stop : ℕ)
      → first < length packets
      → stop ≤ length packets
      → (p : PacketTiming F) × (least_between packets first stop ≡ some p)
  unfolding least_between
  least_between-total packets first stop h k =
      let (p, e) = get_elem?-total packets first h in
      rw (e, least_between)
        (least_delay-total packets (stop - (first + 1)) (first + 1) p (omega arith))

  pub compute_slope_cap-total :
      (packets : List (PacketTiming F)) (s : Settings F)
      → IsChecked s
      → s.enable_cap ≡ true
      → length packets ≡ s.window_size
      → (cap : Option F) × (compute_slope_cap packets s ≡ some cap)
  unfolding compute_slope_cap
  compute_slope_cap-total packets s c on e =
      let (early, e') =
        least_between-total packets 0 s.beginning_packets (ground arith) (ground arith) in
      let (late, e'') =
        least_between-total packets ((length packets + 2 ^ 64 - s.end_packets) % 2 ^ 64)
          (length packets) (ground arith) (omega arith) in
      rw (e', e'', compute_slope_cap) (_, refl)

  length-sift :
      (p : PacketTiming F) (qs : List (PacketTiming F)) → length (sift p qs) ≡ suc (length qs)
  unfolding sift
  length-sift p [] = refl
  length-sift p (q ∷ qs) = ground (arith, length-sift p qs)

  -- What holds of the estimator after every call.
  pub record IsBounded (s : Trendline F) : Type 0 where
    pub settled : IsChecked s.settings
    pub window : length s.delay_hist ≤ s.settings.window_size
    pub counted : s.num_of_deltas ≤ delta_counter_max
    pub judged : s.hypothesis ≢ last
    pub predicted : s.hypothesis_predicted ≡ normal

  length-push_timing :
      (s : Settings F) (hist : List (PacketTiming F)) (p : PacketTiming F)
      → length hist ≤ s.window_size
      → length (push_timing s hist p) ≤ s.window_size
  unfolding push_timing
  length-push_timing s hist p h = ground (
    arith,
    length-append hist (p ∷ []),
    length-reverse hist,
    length-reverse (sift p (reverse hist)),
    length-sift p (reverse hist),
    length-pop_front (hist ++ p ∷ []),
    length-pop_front (reverse (sift p (reverse hist))),
  )

  trend_of-total :
      (s : Settings F) (hist : List (PacketTiming F)) (prev_trend : F)
      → IsChecked s
      → (trend : F) × (trend_of s hist prev_trend ≡ some trend)
  unfolding trend_of compute_slope_cap
  trend_of-total s hist prev_trend c = elim (Bool-cases (length hist == s.window_size)) [
    | inr other ↦ rw (other, trend_of) (_, refl)
    | inl full ↦ elim (Bool-cases s.enable_cap) [
      | inr off ↦ rw (full, off, trend_of) (_, refl)
      | inl on ↦
          let (cap, e) = compute_slope_cap-total hist s c on (ground arith) in
          rw (full, on, e, trend_of) (_, refl)
    ]
  ]

  pub detect-keeps :
      (s : Trendline F) (trend ts_delta : F) (now_ms : ℤ)
      → let r = detect s trend ts_delta now_ms in
        (r.settings ≡ s.settings)
        × (r.delay_hist ≡ s.delay_hist)
        × (r.num_of_deltas ≡ s.num_of_deltas)
        × (r.has_predictor ≡ s.has_predictor)
        × (r.hypothesis_predicted ≡ s.hypothesis_predicted)
        × (s.hypothesis ≢ last → r.hypothesis ≢ last)
  unfolding detect
  detect-keeps s trend ts_delta now_ms = ground arith

  add_sample-IsBounded :
      (s : Trendline F) (sample : Sample F) → IsBounded s → IsBounded (add_sample s sample)
  unfolding add_sample
  add_sample-IsBounded s sample b = record {
    settled = b.settled;
    window = length-push_timing s.settings s.delay_hist _ b.window;
    counted = ground arith;
    judged = b.judged;
    predicted = b.predicted;
  }

  detect-IsBounded :
      (s : Trendline F) (trend ts_delta : F) (now_ms : ℤ)
      → IsBounded s
      → let r = detect s trend ts_delta now_ms in IsBounded r × (r.settings ≡ s.settings)
  detect-IsBounded s trend ts_delta now_ms b =
      let (same, hist, counted, _, predicted, judged) = detect-keeps s trend ts_delta now_ms in
      (
        record {
          settled = rw same b.settled;
          window = rw (same, hist) b.window;
          counted = rw counted b.counted;
          judged = judged b.judged;
          predicted = predicted ∙ b.predicted;
        },
        same,
      )

  -- An update runs without an access outside the window, and keeps the bounds.
  pub update-total :
      (s : Trendline F) (sample : Sample F) (calculated : Bool)
      → IsBounded s
      → (r : Trendline F) × (update s sample calculated ≡ some r)
        × IsBounded r
        × (r.settings ≡ s.settings)
  unfolding update update_trendline add_sample
  update-total s sample true b =
      let added = add_sample s sample in
      let kept = add_sample-IsBounded s sample b in
      let (trend, e) =
        trend_of-total added.settings added.delay_hist added.prev_trend kept.settled in
      let (bounded, same) =
        detect-IsBounded added trend sample.send_delta_ms sample.arrival_ms kept in
      rw (update, update_trendline, e) (_, refl, bounded, same)
  update-total s sample false b = (s, refl, b, refl)

  pub new-IsBounded : (has_predictor : Bool) → IsBounded (new_trendline {F = F} has_predictor)
  unfolding new_trendline
  new-IsBounded has_predictor = record {
    settled = checked-IsChecked initial_settings;
    window = omega arith;
    counted = omega arith;
    judged = ground arith;
    predicted = refl;
  }

module _ {ℓ} {F : Type ℓ} ⦃fl : Double F⦄ where
  -- The estimator after a sequence of samples; `none` is an access outside the window.
  unfoldable pub run : Trendline F → List (Sample F × Bool) → Option (Trendline F)
  run s [] = some s
  run s ((sample, calculated) ∷ es) = elim (update s sample calculated) [
    | none ↦ none
    | some r ↦ run r es
  ]

  run-total :
      (s : Trendline F) (es : List (Sample F × Bool))
      → IsBounded s
      → (r : Trendline F) × (run s es ≡ some r) × IsBounded r × (r.settings ≡ s.settings)
  unfolding run
  run-total s [] b = (s, refl, b, refl)
  run-total s ((sample, calculated) ∷ es) b =
      let (r, e, bounded, same) = update-total s sample calculated b in
      let (r', e', bounded', same') = run-total r es bounded in
      rw (e, run) (r', e', bounded', same' ∙ same)

module _ {ℓ} (F : Type ℓ) ⦃fl : Double F⦄ where
  -- Over any samples the estimator runs from its start without an access outside the window, holds at
  -- most 20 packets and counts at most 1000 deltas.
  pub run-bounded :
      (has_predictor : Bool) (es : List (Sample F × Bool))
      → (r : Trendline F) × (run (new_trendline has_predictor) es ≡ some r)
        × (length r.delay_hist ≤ 20)
        × (r.num_of_deltas ≤ 1000)
  unfolding new_trendline checked
  run-bounded has_predictor es =
      let (r, e, b, same) =
        run-total (new_trendline has_predictor) es (new-IsBounded has_predictor) in
      (r, e, omega (arith, b.window, ap (λ (c : Settings F). c.window_size) same), b.counted)
