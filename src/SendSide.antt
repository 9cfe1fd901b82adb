-- ===== src/SendSide.antt =====
-- chrome_gcc/src/google_cc/send_side_bandwidth_estimation.h and .cc: the sender's loss-based
-- estimate. Counts of packets are natural numbers: they come from unsigned ones.
pub mod Backoff
pub mod Target
pub mod Estimate
pub mod History
pub mod Minimum
pub mod Told
pub mod Window
pub mod Limits
pub mod Fraction
pub mod Cases
pub mod Loss
pub mod Events
pub mod Reach
pub mod Rise
mod Tests
use gcc_chrome.Common.{
  ℕ, zero, suc, ◌+◌, ◌-◌, ◌*◌, ◌/◌, Bool, true, false, Option, none, some, List, [], ◌∷◌, ◌++◌, ltb,
  leb, ◌==◌, not, ◌&&◌, ◌||◌, if◌then◌else◌,
}
use gcc_chrome.Common.Double.{Double}
use gcc_chrome.Common.Int.{
  ℤ, pos, ◌+ℤ◌, quot, int64, int32, to_u8, ltb_ℤ, leb_ℤ, eqb_ℤ, max_ℤ, min_ℤ, pos_part,
}
use gcc_chrome.Unit.{
  Timestamp, TimeDelta, DataRate, plus_infinity, minus_infinity, is_zero, is_infinite, is_finite,
  add, sub, scale, from_double, to_double, millis, kbps,
}

-- bwe_defines.cc
abbrev pub min_bitrate : DataRate
min_bitrate = pos 5000

abbrev pub default_max_bitrate : DataRate
default_max_bitrate = pos 1_000_000_000

-- INITIAL_PACING_RATE of defs.h
abbrev pub initial_pacing_rate : ℕ
initial_pacing_rate = 500_000

pub record LinkCapacityTracker {ℓ} (F : Type ℓ) : Type ℓ where
  pub capacity_estimate_bps : F
  pub last_link_capacity_update : Timestamp
  pub last_delay_based_estimate : DataRate

pub data UmaState : Type 0 where
  no_update first_done done : UmaState

pub record SendSide {ℓ} (F : Type ℓ) : Type ℓ where
  pub link_capacity : LinkCapacityTracker F
  pub min_bitrate_history : List (Timestamp × DataRate)
  pub lost_packets_since_last_loss_update : ℕ
  pub expected_packets_since_last_loss_update : ℕ
  pub acknowledged_rate : Option DataRate
  pub current_target : DataRate
  pub last_logged_target : DataRate
  pub min_bitrate_configured : DataRate
  pub max_bitrate_configured : DataRate
  pub last_low_bitrate_log : Timestamp
  pub has_decreased_since_last_fraction_loss : Bool
  pub last_loss_feedback : Timestamp
  pub last_loss_packet_report : Timestamp
  pub last_fraction_loss : ℕ
  pub last_logged_fraction_loss : ℕ
  pub last_round_trip_time : TimeDelta
  pub receiver_limit : DataRate
  pub delay_based_limit : DataRate
  pub time_last_decrease : Timestamp
  pub first_report_time : Timestamp
  pub initially_lost_packets : ℕ
  pub bitrate_at_2_seconds : DataRate
  pub uma_update_state : UmaState
  pub uma_rtt_state : UmaState
  pub rampup_uma_stats_updated : List Bool
  pub last_rtc_event_log : Timestamp
  pub receiver_limit_caps_only : Bool

-- `LinkCapacityTracker`
module _ {ℓ} {F : Type ℓ} ⦃fl : Double F⦄ where
  -- std::min of two doubles
  abbrev pub min_double : F → F → F
  min_double a b = if fl.lt b a then b else a

  unfoldable pub new_link_capacity_tracker : LinkCapacityTracker F
  new_link_capacity_tracker = record {
    capacity_estimate_bps = fl.of_int (pos 0);
    last_link_capacity_update = minus_infinity;
    last_delay_based_estimate = plus_infinity;
  }

  unfoldable pub tracker_update_delay_based_estimate :
      LinkCapacityTracker F → Timestamp → DataRate → LinkCapacityTracker F
  unfolding to_double
  tracker_update_delay_based_estimate l at_time delay_based_bitrate =
      if ltb_ℤ delay_based_bitrate l.last_delay_based_estimate
      then record l {
        capacity_estimate_bps = min_double l.capacity_estimate_bps (to_double delay_based_bitrate);
        last_link_capacity_update = at_time;
        last_delay_based_estimate = delay_based_bitrate;
      }
      else record l { last_delay_based_estimate = delay_based_bitrate }

  unfoldable pub on_starting_rate : LinkCapacityTracker F → DataRate → LinkCapacityTracker F
  unfolding is_infinite to_double
  on_starting_rate l start_rate =
      if is_infinite l.last_link_capacity_update
      then record l { capacity_estimate_bps = to_double start_rate }
      else l

  unfoldable pub tracker_estimate : LinkCapacityTracker F → DataRate
  unfolding from_double
  tracker_estimate l = from_double l.capacity_estimate_bps

module _ {ℓ} {F : Type ℓ} ⦃fl : Double F⦄ where
  unfoldable pub new_send_side : SendSide F
  unfolding new_link_capacity_tracker
  new_send_side = record {
    link_capacity = new_link_capacity_tracker;
    min_bitrate_history = [];
    lost_packets_since_last_loss_update = 0;
    expected_packets_since_last_loss_update = 0;
    acknowledged_rate = none;
    current_target = pos initial_pacing_rate;
    last_logged_target = pos 0;
    min_bitrate_configured = min_bitrate;
    max_bitrate_configured = default_max_bitrate;
    last_low_bitrate_log = minus_infinity;
    has_decreased_since_last_fraction_loss = false;
    last_loss_feedback = minus_infinity;
    last_loss_packet_report = minus_infinity;
    last_fraction_loss = 0;
    last_logged_fraction_loss = 0;
    last_round_trip_time = pos 0;
    receiver_limit = plus_infinity;
    delay_based_limit = plus_infinity;
    time_last_decrease = minus_infinity;
    first_report_time = minus_infinity;
    initially_lost_packets = 0;
    bitrate_at_2_seconds = pos 0;
    uma_update_state = no_update;
    uma_rtt_state = no_update;
    rampup_uma_stats_updated = false ∷ false ∷ false ∷ [];
    last_rtc_event_log = minus_infinity;
    receiver_limit_caps_only = true;
  }

module _ {ℓ} {F : Type ℓ} where
  unfoldable pub on_route_change : SendSide F → SendSide F
  on_route_change s = record s {
    lost_packets_since_last_loss_update = 0;
    expected_packets_since_last_loss_update = 0;
    current_target = pos 0;
    min_bitrate_configured = min_bitrate;
    max_bitrate_configured = default_max_bitrate;
    last_low_bitrate_log = minus_infinity;
    has_decreased_since_last_fraction_loss = false;
    last_loss_feedback = minus_infinity;
    last_loss_packet_report = minus_infinity;
    last_fraction_loss = 0;
    last_logged_fraction_loss = 0;
    last_round_trip_time = pos 0;
    receiver_limit = plus_infinity;
    delay_based_limit = plus_infinity;
    time_last_decrease = minus_infinity;
    first_report_time = minus_infinity;
    initially_lost_packets = 0;
    bitrate_at_2_seconds = pos 0;
    uma_update_state = no_update;
    uma_rtt_state = no_update;
    last_rtc_event_log = minus_infinity;
  }
