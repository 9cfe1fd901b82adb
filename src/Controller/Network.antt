-- ===== src/Controller/Network.antt =====
-- The updates that the controller of google_cc/goog_cc_network_control.cc returns: the target rate and
-- the pacing.
use gcc_chrome.Common.{ℕ, Bool, true, Option, none, some, ◌==◌, not, ◌||◌, if◌then◌else◌}
use gcc_chrome.Common.Double.{Double}
use gcc_chrome.Common.Int.{ℤ, eqb_ℤ, max_ℤ, min_ℤ}
use gcc_chrome.Unit.{Timestamp, TimeDelta, DataRate, DataSize, scale, seconds, rate_times}
use gcc_chrome.SendSide.{tracker_estimate}
use gcc_chrome.SendSide.Target.{target_rate}
use gcc_chrome.Aimd.{value_or}
use gcc_chrome.LinkCapacity.{int_double}
use gcc_chrome.Acknowledged.{div_float}
use gcc_chrome.DelayBased.Update as Delay
use gcc_chrome.Controller.{Controller, TargetRateConstraints, reset_constraints}

pub record NetworkEstimate {ℓ} (F : Type ℓ) : Type ℓ where
  pub at_time : Timestamp
  pub round_trip_time : TimeDelta
  pub bwe_period : TimeDelta
  pub loss_rate_ratio : F

pub record TargetTransferRate {ℓ} (F : Type ℓ) : Type ℓ where
  pub at_time : Timestamp
  pub network_estimate : NetworkEstimate F
  pub target_rate : DataRate
  pub stable_target_rate : DataRate

pub record PacerConfig : Type 0 where
  pub at_time : Timestamp
  pub data_window : DataSize
  pub time_window : TimeDelta
  pub pad_window : DataSize

-- The fields of `NetworkControlUpdate` that are set.
pub record NetworkControlUpdate {ℓ} (F : Type ℓ) : Type ℓ where
  pub pacer_config : Option PacerConfig
  pub target_rate : Option (TargetTransferRate F)

abbrev differs : ℕ → Option ℕ → Bool
differs a none = true
differs a (some b) = not (a == b)

abbrev ne_ℤ : ℤ → ℤ → Bool
ne_ℤ a b = not (eqb_ℤ a b)

module _ {ℓ} {F : Type ℓ} ⦃fl : Double F⦄ where
  abbrev loss_ratio : ℕ → F
  loss_ratio fraction = div_float (int_double fraction) (int_double 255)

  unfoldable pub get_pacing_rates : Controller F → Timestamp → PacerConfig
  get_pacing_rates s at_time =
      let pacing_rate =
        scale (max_ℤ s.min_total_allocated_bitrate s.last_loss_based_target_rate) s.pacing_factor in
      let padding_rate = min_ℤ s.max_padding_rate s.last_pushback_target_rate in
      record {
        at_time = at_time;
        time_window = seconds 1;
        data_window = rate_times pacing_rate (seconds 1);
        pad_window = rate_times padding_rate (seconds 1);
      }

  unfoldable pub stable_rate_of : Controller F → DataRate
  stable_rate_of s =
      min_ℤ (tracker_estimate s.bandwidth_estimation.link_capacity)
        (target_rate s.bandwidth_estimation)

  -- Whether one of the estimates is not the one that was last told.
  unfoldable pub network_changed : Controller F → Bool
  unfolding stable_rate_of
  network_changed s =
      let rate = target_rate s.bandwidth_estimation in
      ne_ℤ rate s.last_loss_based_target_rate
      || differs s.bandwidth_estimation.last_fraction_loss s.last_estimated_fraction_loss
      || ne_ℤ s.bandwidth_estimation.last_round_trip_time s.last_estimated_round_trip_time
      || ne_ℤ rate s.last_pushback_target_rate
      || ne_ℤ (stable_rate_of s) s.last_stable_target_rate

  -- The state that a change leaves.
  unfoldable pub remember_estimates : Controller F → Controller F
  unfolding stable_rate_of
  remember_estimates s = record s {
    last_loss_based_target_rate = target_rate s.bandwidth_estimation;
    last_pushback_target_rate = target_rate s.bandwidth_estimation;
    last_estimated_fraction_loss = some s.bandwidth_estimation.last_fraction_loss;
    last_estimated_round_trip_time = s.bandwidth_estimation.last_round_trip_time;
    last_stable_target_rate = stable_rate_of s;
  }

  unfoldable pub no_update : NetworkControlUpdate F
  no_update = record { pacer_config = none; target_rate = none }

  -- The update after a change.
  unfoldable pub changed_update : Controller F → Timestamp → TimeDelta → NetworkControlUpdate F
  changed_update s at_time bwe_period = record {
    target_rate = some (record {
      at_time = at_time;
      network_estimate = record {
        at_time = at_time;
        round_trip_time = s.bandwidth_estimation.last_round_trip_time;
        bwe_period = bwe_period;
        loss_rate_ratio = loss_ratio s.bandwidth_estimation.last_fraction_loss;
      };
      target_rate = target_rate s.bandwidth_estimation;
      stable_target_rate = stable_rate_of s;
    });
    pacer_config = some (get_pacing_rates (remember_estimates s) at_time);
  }

  -- `none`, here and below: a division is undefined.
  unfoldable pub maybe_trigger_on_network_changed :
      Controller F → Timestamp → Option (Controller F × NetworkControlUpdate F)
  maybe_trigger_on_network_changed s at_time =
      if network_changed s
      then elim (Delay.get_expected_bwe_period s.delay_based_bwe) [
        | none ↦ none
        | some bwe_period ↦ some (remember_estimates s, changed_update s at_time bwe_period)
      ]
      else some (s, no_update)

  unfoldable pub on_target_rate_constraints :
      Controller F → TargetRateConstraints → Option (Controller F × NetworkControlUpdate F)
  on_target_rate_constraints s constraints =
      maybe_trigger_on_network_changed (reset_constraints s constraints) constraints.at_time

  unfoldable pub get_network_state : Controller F → Timestamp → Option (NetworkControlUpdate F)
  get_network_state s at_time = elim (Delay.get_expected_bwe_period s.delay_based_bwe) [
    | none ↦ none
    | some bwe_period ↦ some (record {
      target_rate = some (record {
        at_time = at_time;
        network_estimate = record {
          at_time = at_time;
          round_trip_time = s.last_estimated_round_trip_time;
          bwe_period = bwe_period;
          loss_rate_ratio = loss_ratio (value_or s.last_estimated_fraction_loss 0);
        };
        target_rate = s.last_pushback_target_rate;
        stable_target_rate = tracker_estimate s.bandwidth_estimation.link_capacity;
      });
      pacer_config = some (get_pacing_rates s at_time);
    })
  ]
