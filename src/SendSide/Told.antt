-- ===== src/SendSide/Told.antt =====
-- What the receiver told stays through the loss reports.
use gcc_chrome.Common.{ℕ, ◌≡◌, true, if◌then◌else◌, [], ◌∷◌, arith}
use gcc_chrome.Common.Double.{Double}
use gcc_chrome.Unit.{Timestamp, is_infinite}
use gcc_chrome.SendSide.{SendSide}
use gcc_chrome.SendSide.Target.{apply_target_limits}
use gcc_chrome.SendSide.Estimate.{
  increased, decreased, trusted_bitrate, front_rate, update_min_history, update_by_loss,
  update_estimate, update_packets_lost,
}
use gcc_chrome.SendSide.Limits.{update_target_bitrate-keeps, update_uma-keeps}
use gcc_chrome.SendSide.Events.{judged}

-- The same limit of the receiver, and the same minimum.
abbrev pub SameLimit {ℓ} : {F : Type ℓ} → SendSide F → SendSide F → Type 0
SameLimit s r =
    (r.receiver_limit ≡ s.receiver_limit)
    × (r.min_bitrate_configured ≡ s.min_bitrate_configured)
    × (r.receiver_limit_caps_only ≡ s.receiver_limit_caps_only)

module _ {ℓ} {F : Type ℓ} ⦃fl : Double F⦄ where
  update_by_loss-SameLimit :
      (s : SendSide F) (at_time : Timestamp) → SameLimit s (update_by_loss s at_time)
  unfolding update_by_loss apply_target_limits
  update_by_loss-SameLimit s at_time = ground (
    arith,
    update_target_bitrate-keeps s s.current_target at_time,
    update_target_bitrate-keeps s (increased F (front_rate s.current_target s.min_bitrate_history))
        at_time,
    update_target_bitrate-keeps
        (record s { time_last_decrease = at_time; has_decreased_since_last_fraction_loss = true })
        (decreased F s.current_target s.last_fraction_loss) at_time,
  )

  update_estimate-SameLimit :
      (s : SendSide F) (at_time : Timestamp) → SameLimit s (update_estimate s at_time)
  unfolding update_estimate
  update_estimate-SameLimit s at_time = ground (
    arith,
    update_target_bitrate-keeps
        (record s { min_bitrate_history = (at_time, s.current_target) ∷ [] }) (trusted_bitrate s)
        at_time,
    update_by_loss-SameLimit
        (record s {
          min_bitrate_history = update_min_history s.min_bitrate_history s.current_target at_time;
        })
        at_time,
  )

  pub update_packets_lost-SameLimit :
      (s : SendSide F) (lost total : ℕ) (at_time : Timestamp)
      → SameLimit s (update_packets_lost s lost total at_time)
  unfolding update_packets_lost
  update_packets_lost-SameLimit s lost total at_time =
      let j = judged s lost total at_time in
      let heard : SendSide F = record s {
        last_loss_feedback = at_time;
        first_report_time =
            if is_infinite s.first_report_time then at_time else s.first_report_time;
      } in
      ground (
        arith,
        update_estimate-SameLimit j at_time,
        update_uma-keeps (update_estimate j at_time) at_time lost,
        update_uma-keeps heard at_time lost,
      )
