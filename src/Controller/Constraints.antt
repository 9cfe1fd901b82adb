-- ===== src/Controller/Constraints.antt =====
-- The constraints on the rates, and the updates that the controller tells.
use gcc_chrome.Common.{◌≡◌, refl, ◌∙◌, Option, none, some, arith}
use gcc_chrome.Common.Double.{Double}
use gcc_chrome.Common.Int.{ℤ, ◌≤ℤ◌, max_ℤ}
use gcc_chrome.Unit.{Timestamp, DataRate}
use gcc_chrome.SendSide.{SendSide, min_bitrate}
use gcc_chrome.SendSide.Target.{
  set_bitrates, set_min_max_bitrate, set_send_bitrate, update_target_bitrate,
  maybe_log_low_bitrate_warning, maybe_log_loss_based_event,
}
use gcc_chrome.DelayBased.Update.{set_min_bitrate}
use gcc_chrome.Controller.{Controller, TargetRateConstraints, take_constraints, reset_constraints}

le-max_ℤ : (a b : ℤ) → a ≤ℤ max_ℤ a b
le-max_ℤ a b = ground arith

module _ {ℓ} {F : Type ℓ} ⦃fl : Double F⦄ where
  set_bitrates-range :
      (s : SendSide F) (start : Option DataRate) (min_rate max_rate : DataRate)
      (at_time : Timestamp)
      → let r = set_bitrates s start min_rate max_rate at_time in
        let t = set_min_max_bitrate s min_rate max_rate in
        (r.min_bitrate_configured ≡ t.min_bitrate_configured)
        × (r.max_bitrate_configured ≡ t.max_bitrate_configured)
  unfolding set_bitrates set_send_bitrate update_target_bitrate maybe_log_low_bitrate_warning
      maybe_log_loss_based_event
  set_bitrates-range s none min_rate max_rate at_time = (refl, refl)
  set_bitrates-range s (some rate) min_rate max_rate at_time = ground arith

  set_min_max_bitrate-least :
      (s : SendSide F) (min_rate max_rate : DataRate)
      → min_bitrate ≤ℤ min_rate
      → (set_min_max_bitrate s min_rate max_rate).min_bitrate_configured ≡ min_rate
  unfolding set_min_max_bitrate
  set_min_max_bitrate-least s min_rate max_rate h = ground arith

module _ {ℓ} (F : Type ℓ) ⦃fl : Double F⦄ where
  -- Whatever constraints are given, the minimum rate is at least 5 kbps and at most the maximum, both
  -- estimators get that minimum, and the delay-based rate is at least it.
  pub reset_constraints-rates :
      (s : Controller F) (new : TargetRateConstraints)
      → let r = reset_constraints s new in
        (min_bitrate ≤ℤ r.min_data_rate)
        × (r.min_data_rate ≤ℤ r.max_data_rate)
        × (r.bandwidth_estimation.min_bitrate_configured ≡ r.min_data_rate)
        × (r.delay_based_bwe.rate_control.min_configured_bitrate ≡ r.min_data_rate)
        × (r.min_data_rate ≤ℤ r.delay_based_bwe.rate_control.current_bitrate)
  unfolding reset_constraints set_min_bitrate gcc_chrome.Aimd.set_min_bitrate
  reset_constraints-rates s new =
      let t = take_constraints s new in
      let least : min_bitrate ≤ℤ t.min_data_rate = ground arith in
      (
        least,
        ground arith,
        (set_bitrates-range t.bandwidth_estimation t.starting_rate t.min_data_rate t.max_data_rate
              new.at_time).0
            ∙ set_min_max_bitrate-least t.bandwidth_estimation t.min_data_rate t.max_data_rate
                least,
        refl,
        le-max_ℤ t.min_data_rate _,
      )
