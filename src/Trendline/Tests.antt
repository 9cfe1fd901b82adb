-- ===== src/Trendline/Tests.antt =====
-- The trendline estimator on concrete delays: groups that come 10 ms apart, each with more delay.
use gcc_chrome.Common.{
  ℕ, zero, suc, ◌+◌, ◌*◌, ◌-◌, ◌≤◌, ◌≡◌, ◌≢◌, refl, Bool, true, false, some, List, [], ◌∷◌, arith,
}
use gcc_chrome.Common.Fixed.{Fixed, fixed}
use gcc_chrome.Common.Int.{pos, ◌-ℤ◌}
use gcc_chrome.Common.Lists.{length}
use gcc_chrome.Aimd.{normal, overusing, value_or}
use gcc_chrome.LinkCapacity.{int_double}
use gcc_chrome.Trendline.{Settings, PacketTiming, Trendline, Sample, checked, new_trendline}
use gcc_chrome.Trendline.Slope.{compute_slope_cap, linear_fit_slope, sums, moments}
use gcc_chrome.Trendline.Update.{
  update, update_trendline, trend_of, add_sample, detect, push_timing, update_threshold,
  modified_trend_of,
}
use gcc_chrome.Trendline.History.{run, run-bounded}
use gcc_chrome.Trendline.Detection.{IsAbove, overuse_needs_two}
use gcc_chrome.Trendline.Threshold.{IsOrdered, threshold-range}

-- `n` groups from time `at` on, sent 10 ms apart and received `gap` ms apart.
unfoldable groups : ℕ → ℕ → ℕ → List (Sample Fixed × Bool)
groups zero gap at = []
groups (suc n) gap at =
    (
      record { recv_delta_ms = int_double gap; send_delta_ms = int_double 10; arrival_ms = pos at },
      true,
    )
    ∷ groups n gap (at + gap)

unfoldable after : ℕ → ℕ → Trendline Fixed
unfolding run groups update update_trendline trend_of linear_fit_slope sums moments add_sample
    detect push_timing update_threshold modified_trend_of new_trendline checked fixed
after n gap = value_or (run (new_trendline false) (groups n gap 1000)) (new_trendline false)

steady : (after 24 10).hypothesis ≡ normal
unfolding after
steady = refl

growing : (after 20 14).hypothesis ≡ normal
unfolding after
growing = refl

grown : (after 21 14).hypothesis ≡ overusing
unfolding after
grown = refl

abbrev growth : ℕ → Sample Fixed
growth at = record {
  recv_delta_ms = int_double 14;
  send_delta_ms = int_double 10;
  arrival_ms = pos at;
}

calm : (after 20 14).hypothesis ≢ overusing
calm e = ground (arith, growing)

overuse_needs_two_example :
    IsAbove (after 19 14) (growth 1_266) × IsAbove (after 20 14) (growth 1_280)
unfolding after
overuse_needs_two_example =
    overuse_needs_two Fixed (after 19 14) (after 20 14) (after 21 14) (growth 1_266) (growth 1_280)
      (omega arith) refl refl calm grown

ordered : IsOrdered Fixed
unfolding fixed
ordered = record { least = refl; most = refl; order = refl; start_low = refl; start_high = refl }

reached : run (new_trendline false) (groups 21 14 1000) ≡ some (after 21 14)
unfolding after
reached = refl

threshold-range_example :
    (fixed.lt (after 21 14).threshold (int_double 6) ≡ false)
    × (fixed.lt (int_double 600) (after 21 14).threshold ≡ false)
threshold-range_example =
    threshold-range Fixed false (groups 21 14 1000) (after 21 14) ordered reached

run-bounded_example :
    (r : Trendline Fixed) × (run (new_trendline false) (groups 21 14 1000) ≡ some r)
    × (length r.delay_hist ≤ 20)
    × (r.num_of_deltas ≤ 1000)
run-bounded_example = run-bounded Fixed false (groups 21 14 1000)

-- Settings with the cap enabled, and a window of the least length.
abbrev capped_settings : Settings Fixed
capped_settings = record {
  enable_sort = true;
  enable_cap = true;
  beginning_packets = 4;
  end_packets = 5;
  cap_uncertainty = int_double 0;
  window_size = 10;
}

unfoldable timings : ℕ → List (PacketTiming Fixed)
timings zero = []
timings (suc n) =
    record {
      arrival_time_ms = int_double (1000 - n * 10);
      smoothed_delay_ms = int_double n;
      raw_delay_ms = int_double (n * n);
    }
    ∷ timings n

cap_found :
    compute_slope_cap (timings 10) (checked capped_settings) ≡ some (some (pos 0 -ℤ pos 600_000))
unfolding compute_slope_cap checked timings fixed ◌-ℤ◌
cap_found = refl
