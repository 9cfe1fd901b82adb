-- ===== src/Trendline.antt =====
-- chrome_gcc/src/google_cc/trendline_estimator.h and .cc: overuse of the network from the slope of the
-- delays. `prev_modified_trend_`, which nothing reads, is left out. The constructor leaves the pointer
-- `network_state_predictor_` as it is, so whether it is set is an argument. Counters do not wrap.
pub mod Slope
pub mod Update
pub mod Threshold
pub mod History
pub mod Detection
mod Tests
use gcc_chrome.Common.{
  ℕ, zero, suc, ◌+◌, ◌-◌, ◌%◌, ◌^◌, Bool, false, ◌&&◌, ◌||◌, Option, none, some, List, [], ◌∷◌,
  ◌++◌, ltb, ◌==◌, if◌then◌else◌,
}
use gcc_chrome.Common.Double.{Double}
use gcc_chrome.Common.Int.{ℤ, pos, negsuc, ◌-ℤ◌, int64, eqb_ℤ, min_ℤ}
use gcc_chrome.Common.Lists.{length, get_elem?}
use gcc_chrome.Aimd.{BandwidthUsage, normal, underusing, overusing, value_or}
use gcc_chrome.LinkCapacity.{safe_clamp, int_double}
use mathlib.Core.List.{reverse}

pub record Settings {ℓ} (F : Type ℓ) : Type ℓ where
  pub enable_sort : Bool
  pub enable_cap : Bool
  pub beginning_packets : ℕ
  pub end_packets : ℕ
  pub cap_uncertainty : F
  pub window_size : ℕ

pub record PacketTiming {ℓ} (F : Type ℓ) : Type ℓ where
  pub arrival_time_ms : F
  pub smoothed_delay_ms : F
  pub raw_delay_ms : F

pub record Trendline {ℓ} (F : Type ℓ) : Type ℓ where
  pub settings : Settings F
  pub num_of_deltas : ℕ
  pub first_arrival_time_ms : ℤ
  pub accumulated_delay : F
  pub smoothed_delay : F
  pub delay_hist : List (PacketTiming F)
  pub threshold : F
  pub last_update_ms : ℤ
  pub prev_trend : F
  pub time_over_using : F
  pub overuse_counter : ℕ
  pub hypothesis : BandwidthUsage
  pub hypothesis_predicted : BandwidthUsage
  pub has_predictor : Bool

-- The arguments of `Update`.
pub record Sample {ℓ} (F : Type ℓ) : Type ℓ where
  pub recv_delta_ms : F
  pub send_delta_ms : F
  pub arrival_ms : ℤ

abbrev pub default_trendline_window_size : ℕ
default_trendline_window_size = 20

abbrev pub min_num_deltas : ℕ
min_num_deltas = 60

abbrev pub delta_counter_max : ℕ
delta_counter_max = 1000

abbrev pub minus_one : ℤ
minus_one = negsuc 0

abbrev pub min_ℕ : ℕ → ℕ → ℕ
min_ℕ a b = if ltb b a then b else a

module _ {ℓ} {F : Type ℓ} ⦃fl : Double F⦄ where
  abbrev no_cap : Settings F → Settings F
  no_cap s = record s {
    enable_cap = false;
    beginning_packets = 0;
    end_packets = 0;
    cap_uncertainty = int_double 0;
  }

  abbrev checked_ends : Settings F → Settings F
  checked_ends s =
      if ltb s.beginning_packets 1
        || ltb s.end_packets 1
        || ltb s.window_size s.beginning_packets
        || ltb s.window_size s.end_packets
      then no_cap s
      else s

  abbrev checked_sum : Settings F → Settings F
  checked_sum s =
      if ltb s.window_size ((s.beginning_packets + s.end_packets) % 2 ^ 32) then no_cap s else s

  abbrev checked_uncertainty : Settings F → Settings F
  checked_uncertainty s =
      if fl.lt s.cap_uncertainty (int_double 0) || fl.lt (fl.decimal (pos 25) 3) s.cap_uncertainty
      then record s { cap_uncertainty = int_double 0 }
      else s

  -- The body of the constructor of the settings, on the values that its members start with.
  unfoldable pub checked : Settings F → Settings F
  checked s =
      let sized =
        if ltb s.window_size 10 || ltb 200 s.window_size
        then record s { window_size = default_trendline_window_size }
        else s in
      if sized.enable_cap then checked_uncertainty (checked_sum (checked_ends sized)) else sized

  -- The values that the members of the settings start with.
  abbrev pub initial_settings : Settings F
  initial_settings = record {
    enable_sort = false;
    enable_cap = false;
    beginning_packets = 7;
    end_packets = 7;
    cap_uncertainty = int_double 0;
    window_size = default_trendline_window_size;
  }

  unfoldable pub new_trendline : Bool → Trendline F
  unfolding checked
  new_trendline has_predictor = record {
    settings = checked initial_settings;
    num_of_deltas = 0;
    first_arrival_time_ms = minus_one;
    accumulated_delay = int_double 0;
    smoothed_delay = int_double 0;
    delay_hist = [];
    threshold = fl.decimal (pos 125) 1;
    last_update_ms = minus_one;
    prev_trend = int_double 0;
    time_over_using = fl.of_int minus_one;
    overuse_counter = 0;
    hypothesis = normal;
    hypothesis_predicted = normal;
    has_predictor = has_predictor;
  }
