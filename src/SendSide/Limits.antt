-- ===== src/SendSide/Limits.antt =====
-- The limits on the target rate, after every operation of the sender's estimator.
use gcc_chrome.Common.{ℕ, ◌<◌, ◌≤◌, ◌≡◌, true, arith}
use gcc_chrome.Common.Int.{◌≤ℤ◌, max_ℤ, min_ℤ}
use gcc_chrome.Unit.{Timestamp, TimeDelta, DataRate}
use gcc_chrome.SendSide.{SendSide, min_bitrate, default_max_bitrate}
use gcc_chrome.SendSide.Target.{
  get_upper_limit, maybe_log_low_bitrate_warning, maybe_log_loss_based_event, update_target_bitrate,
  set_min_max_bitrate, update_rtt,
}
use gcc_chrome.SendSide.Estimate.{update_uma_stats_packets_lost}

-- What the limits of `s` leave of a rate.
abbrev pub limited {ℓ} : {F : Type ℓ} → SendSide F → DataRate → DataRate
limited s rate = max_ℤ (min_ℤ rate (get_upper_limit s)) s.min_bitrate_configured

module _ {ℓ} {F : Type ℓ} (s : SendSide F) (rate : DataRate) (at_time : Timestamp) where
  -- Whatever rate is asked for, the target is that rate cut to the upper limit, which is the smaller of
  -- the delay-based limit and the configured maximum, and then raised to the configured minimum.
  pub update_target_bitrate-target :
      (update_target_bitrate s rate at_time).current_target ≡ limited s rate
  unfolding update_target_bitrate maybe_log_loss_based_event
  update_target_bitrate-target = ground arith

  -- Only the target and the log change.
  pub update_target_bitrate-keeps :
      let r = update_target_bitrate s rate at_time in
      (r.min_bitrate_configured ≡ s.min_bitrate_configured)
      × (r.max_bitrate_configured ≡ s.max_bitrate_configured)
      × (r.last_fraction_loss ≡ s.last_fraction_loss)
      × (r.lost_packets_since_last_loss_update ≡ s.lost_packets_since_last_loss_update)
      × (r.expected_packets_since_last_loss_update ≡ s.expected_packets_since_last_loss_update)
      × (r.receiver_limit_caps_only ≡ s.receiver_limit_caps_only)
      × (r.has_decreased_since_last_fraction_loss ≡ s.has_decreased_since_last_fraction_loss)
      × (r.receiver_limit ≡ s.receiver_limit)
      × (r.delay_based_limit ≡ s.delay_based_limit)
  unfolding update_target_bitrate maybe_log_loss_based_event maybe_log_low_bitrate_warning
  update_target_bitrate-keeps = ground arith

-- What holds between calls: the configured range, the loss fraction and the counters.
pub record IsSound {ℓ} {F : Type ℓ} (s : SendSide F) : Type 0 where
  pub floor : min_bitrate ≤ℤ s.min_bitrate_configured
  pub range : s.min_bitrate_configured ≤ℤ s.max_bitrate_configured
  pub fraction : s.last_fraction_loss ≤ 255
  pub few : s.expected_packets_since_last_loss_update < 20
  pub caps : s.receiver_limit_caps_only ≡ true
  pub losses : s.lost_packets_since_last_loss_update ≤ s.expected_packets_since_last_loss_update

-- The target is in the configured range.
abbrev pub IsLimited {ℓ} : {F : Type ℓ} → SendSide F → Type 0
IsLimited s =
    (s.min_bitrate_configured ≤ℤ s.current_target) × (s.current_target ≤ℤ s.max_bitrate_configured)

module _ {ℓ} {F : Type ℓ} where
  pub update_target_bitrate-IsSound :
      (s : SendSide F) (rate : DataRate) (at_time : Timestamp)
      → IsSound s
      → IsSound (update_target_bitrate s rate at_time)
  update_target_bitrate-IsSound s rate at_time h =
      ground (arith, update_target_bitrate-keeps s rate at_time)

  pub update_target_bitrate-IsLimited :
      (s : SendSide F) (rate : DataRate) (at_time : Timestamp)
      → IsSound s
      → IsLimited (update_target_bitrate s rate at_time)
  unfolding get_upper_limit
  update_target_bitrate-IsLimited s rate at_time h = ground (
    arith,
    update_target_bitrate-keeps s rate at_time,
    update_target_bitrate-target s rate at_time,
  )

  -- Without a finite maximum the default one holds, whatever the minimum is; hence the bound.
  pub set_min_max_bitrate-IsSound :
      (s : SendSide F) (min_rate max_rate : DataRate)
      → IsSound s
      → min_rate ≤ℤ default_max_bitrate
      → IsSound (set_min_max_bitrate s min_rate max_rate)
  unfolding set_min_max_bitrate
  set_min_max_bitrate-IsSound s min_rate max_rate h le = ground arith

  pub update_uma-keeps :
      (s : SendSide F) (at_time : Timestamp) (lost : ℕ)
      → let r = update_uma_stats_packets_lost s at_time lost in
        (r.min_bitrate_configured ≡ s.min_bitrate_configured)
        × (r.max_bitrate_configured ≡ s.max_bitrate_configured)
        × (r.last_fraction_loss ≡ s.last_fraction_loss)
        × (r.lost_packets_since_last_loss_update ≡ s.lost_packets_since_last_loss_update)
        × (r.expected_packets_since_last_loss_update ≡ s.expected_packets_since_last_loss_update)
        × (r.receiver_limit_caps_only ≡ s.receiver_limit_caps_only)
        × (r.current_target ≡ s.current_target)
        × (r.receiver_limit ≡ s.receiver_limit)
        × (r.has_decreased_since_last_fraction_loss ≡ s.has_decreased_since_last_fraction_loss)
  unfolding update_uma_stats_packets_lost
  update_uma-keeps s at_time lost = ground arith

  pub update_rtt-keeps :
      (s : SendSide F) (rtt : TimeDelta) (at_time : Timestamp)
      → let r = update_rtt s rtt at_time in
        (r.min_bitrate_configured ≡ s.min_bitrate_configured)
        × (r.max_bitrate_configured ≡ s.max_bitrate_configured)
        × (r.last_fraction_loss ≡ s.last_fraction_loss)
        × (r.lost_packets_since_last_loss_update ≡ s.lost_packets_since_last_loss_update)
        × (r.expected_packets_since_last_loss_update ≡ s.expected_packets_since_last_loss_update)
        × (r.receiver_limit_caps_only ≡ s.receiver_limit_caps_only)
        × (r.current_target ≡ s.current_target)
  unfolding update_rtt
  update_rtt-keeps s rtt at_time = ground arith
