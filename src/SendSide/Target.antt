-- ===== src/SendSide/Target.antt =====
-- The target rate of SendSideBandwidthEstimation and its limits.
use gcc_chrome.Common.{
  Bool, true, false, Option, none, some, [], ◌==◌, not, ◌&&◌, ◌||◌, if◌then◌else◌,
}
use gcc_chrome.Common.Double.{Double}
use gcc_chrome.Common.Int.{pos, ltb_ℤ, eqb_ℤ, max_ℤ, min_ℤ}
use gcc_chrome.Unit.{
  Timestamp, TimeDelta, DataRate, plus_infinity, is_zero, is_infinite, is_finite, sub, millis,
}
use gcc_chrome.SendSide.{
  SendSide, UmaState, no_update, done, min_bitrate, default_max_bitrate, on_starting_rate,
  tracker_update_delay_based_estimate,
}

-- Zero stands for no limitation.
abbrev pub no_limit_if_zero : DataRate → DataRate
no_limit_if_zero rate = if is_zero rate then plus_infinity else rate

abbrev pub is_no_update : UmaState → Bool
is_no_update no_update = true
is_no_update _ = false

module _ {ℓ} {F : Type ℓ} where
  unfoldable pub target_rate : SendSide F → DataRate
  target_rate s =
      let target =
        if s.receiver_limit_caps_only
        then min_ℤ s.current_target s.receiver_limit
        else s.current_target in
      max_ℤ s.min_bitrate_configured target

  unfoldable pub get_upper_limit : SendSide F → DataRate
  get_upper_limit s = min_ℤ s.delay_based_limit s.max_bitrate_configured

  unfoldable pub maybe_log_low_bitrate_warning : SendSide F → Timestamp → SendSide F
  maybe_log_low_bitrate_warning s at_time =
      if ltb_ℤ (millis 10_000) (sub at_time s.last_low_bitrate_log)
      then record s { last_low_bitrate_log = at_time }
      else s

  unfoldable pub maybe_log_loss_based_event : SendSide F → Timestamp → SendSide F
  maybe_log_loss_based_event s at_time =
      if not (eqb_ℤ s.current_target s.last_logged_target)
        || not (s.last_fraction_loss == s.last_logged_fraction_loss)
        || ltb_ℤ (millis 5000) (sub at_time s.last_rtc_event_log)
      then record s {
        last_logged_fraction_loss = s.last_fraction_loss;
        last_logged_target = s.current_target;
        last_rtc_event_log = at_time;
      }
      else s

  -- `LinkCapacityTracker::OnRateUpdate`, which this ends with, does nothing.
  unfoldable pub update_target_bitrate : SendSide F → DataRate → Timestamp → SendSide F
  update_target_bitrate s new_bitrate at_time =
      let capped = min_ℤ new_bitrate (get_upper_limit s) in
      if ltb_ℤ capped s.min_bitrate_configured
      then maybe_log_loss_based_event
          (record (maybe_log_low_bitrate_warning s at_time) {
            current_target = s.min_bitrate_configured;
          })
          at_time
      else maybe_log_loss_based_event (record s { current_target = capped }) at_time

  unfoldable pub apply_target_limits : SendSide F → Timestamp → SendSide F
  apply_target_limits s at_time = update_target_bitrate s s.current_target at_time

  unfoldable pub set_send_bitrate : SendSide F → DataRate → Timestamp → SendSide F
  set_send_bitrate s bitrate at_time =
      record (update_target_bitrate (record s { delay_based_limit = plus_infinity }) bitrate
        at_time) { min_bitrate_history = [] }

  unfoldable pub set_min_max_bitrate : SendSide F → DataRate → DataRate → SendSide F
  set_min_max_bitrate s min_rate max_rate =
      let configured = max_ℤ min_rate min_bitrate in
      record s {
        min_bitrate_configured = configured;
        max_bitrate_configured =
            if ltb_ℤ (pos 0) max_rate && is_finite max_rate
            then max_ℤ configured max_rate
            else default_max_bitrate;
      }

  unfoldable pub update_receiver_estimate : SendSide F → Timestamp → DataRate → SendSide F
  update_receiver_estimate s at_time bandwidth =
      apply_target_limits (record s { receiver_limit = no_limit_if_zero bandwidth }) at_time

  unfoldable pub set_acknowledged_rate : SendSide F → Option DataRate → SendSide F
  set_acknowledged_rate s rate = record s { acknowledged_rate = rate }

  unfoldable pub is_in_start_phase : SendSide F → Timestamp → Bool
  is_in_start_phase s at_time =
      is_infinite s.first_report_time || ltb_ℤ (sub at_time s.first_report_time) (millis 2000)

  unfoldable pub update_rtt : SendSide F → TimeDelta → Timestamp → SendSide F
  update_rtt s rtt at_time =
      let timed = if ltb_ℤ (pos 0) rtt then record s { last_round_trip_time = rtt } else s in
      if not (is_in_start_phase timed at_time) && is_no_update timed.uma_rtt_state
      then record timed { uma_rtt_state = done }
      else timed

module _ {ℓ} {F : Type ℓ} ⦃fl : Double F⦄ where
  unfoldable pub set_bitrates :
      SendSide F → Option DataRate → DataRate → DataRate → Timestamp → SendSide F
  set_bitrates s none min_rate max_rate at_time = set_min_max_bitrate s min_rate max_rate
  set_bitrates s (some rate) min_rate max_rate at_time =
      let limited = set_min_max_bitrate s min_rate max_rate in
      set_send_bitrate
        (record limited { link_capacity = on_starting_rate limited.link_capacity rate }) rate
        at_time

  unfoldable pub update_delay_based_estimate : SendSide F → Timestamp → DataRate → SendSide F
  update_delay_based_estimate s at_time bitrate =
      apply_target_limits
        (record s {
          link_capacity = tracker_update_delay_based_estimate s.link_capacity at_time bitrate;
          delay_based_limit = no_limit_if_zero bitrate;
        })
        at_time
