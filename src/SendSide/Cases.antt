-- ===== src/SendSide/Cases.antt =====
-- Every branch of the estimate ends by setting the target within its limits.
use gcc_chrome.Common.{◌≡◌, refl, true, [], ◌∷◌, arith}
use gcc_chrome.Common.Double.{Double}
use gcc_chrome.Unit.{Timestamp, DataRate}
use gcc_chrome.SendSide.{SendSide}
use gcc_chrome.SendSide.Target.{apply_target_limits, update_target_bitrate}
use gcc_chrome.SendSide.Estimate.{
  increased, decreased, trusted_bitrate, front_rate, update_min_history, update_by_loss,
  update_estimate,
}

-- A state that differs in the target, the history or the record of decreases alone.
abbrev pub SameRange {ℓ} : {F : Type ℓ} → SendSide F → SendSide F → Type 0
SameRange s r =
    (r.min_bitrate_configured ≡ s.min_bitrate_configured)
    × (r.max_bitrate_configured ≡ s.max_bitrate_configured)
    × (r.delay_based_limit ≡ s.delay_based_limit)
    × (r.last_fraction_loss ≡ s.last_fraction_loss)
    × (r.lost_packets_since_last_loss_update ≡ s.lost_packets_since_last_loss_update)
    × (r.expected_packets_since_last_loss_update ≡ s.expected_packets_since_last_loss_update)
    × (r.receiver_limit_caps_only ≡ s.receiver_limit_caps_only)

module _ {ℓ} {F : Type ℓ} ⦃fl : Double F⦄ where
  -- The estimate always ends by setting the target within its limits.
  pub update_by_loss_cases :
      (P : SendSide F → Type 0) (s : SendSide F) (at_time : Timestamp)
      → ((r : SendSide F) (rate : DataRate)
          → SameRange s r
          → P (update_target_bitrate r rate at_time))
      → P (update_by_loss s at_time)
  unfolding update_by_loss apply_target_limits
  update_by_loss_cases P s at_time ends = ground (
    arith,
    ends s s.current_target (refl, refl, refl, refl, refl, refl, refl),
    ends s (increased F (front_rate s.current_target s.min_bitrate_history))
        (refl, refl, refl, refl, refl, refl, refl),
    ends (record s { time_last_decrease = at_time; has_decreased_since_last_fraction_loss = true })
        (decreased F s.current_target s.last_fraction_loss)
        (refl, refl, refl, refl, refl, refl, refl),
  )

  pub update_estimate_cases :
      (P : SendSide F → Type 0) (s : SendSide F) (at_time : Timestamp)
      → ((r : SendSide F) (rate : DataRate)
          → SameRange s r
          → P (update_target_bitrate r rate at_time))
      → P (update_estimate s at_time)
  unfolding update_estimate
  update_estimate_cases P s at_time ends = ground (
    arith,
    ends (record s { min_bitrate_history = (at_time, s.current_target) ∷ [] }) (trusted_bitrate s)
        (refl, refl, refl, refl, refl, refl, refl),
    update_by_loss_cases P
        (record s {
          min_bitrate_history = update_min_history s.min_bitrate_history s.current_target at_time;
        })
        at_time ends,
  )
