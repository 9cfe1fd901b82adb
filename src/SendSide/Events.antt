-- ===== src/SendSide/Events.antt =====
-- The sender's estimator over any sequence of calls.
use gcc_chrome.Common.{ℕ, ◌+◌, ◌^◌, ◌<◌, ◌≤◌, refl, false, Option, none, some, arith, if◌then◌else◌}
use gcc_chrome.Common.Double.{Double}
use gcc_chrome.Common.Int.{◌≤ℤ◌}
use gcc_chrome.Unit.{Timestamp, TimeDelta, DataRate, is_infinite, plus_infinity}
use gcc_chrome.SendSide.{
  SendSide, on_route_change, default_max_bitrate, on_starting_rate,
  tracker_update_delay_based_estimate,
}
use gcc_chrome.SendSide.Target.{
  apply_target_limits, set_send_bitrate, set_min_max_bitrate, set_bitrates,
  update_receiver_estimate, update_delay_based_estimate, set_acknowledged_rate, update_rtt,
  no_limit_if_zero,
}
use gcc_chrome.SendSide.Estimate.{fraction_of, update_estimate, update_packets_lost}
use gcc_chrome.SendSide.Fraction.{fraction_of-eq}
use gcc_chrome.SendSide.Cases.{SameRange, update_estimate_cases}
use gcc_chrome.SendSide.Limits.{
  IsSound, IsLimited, update_target_bitrate-IsSound, update_target_bitrate-IsLimited,
  set_min_max_bitrate-IsSound, update_uma-keeps, update_rtt-keeps,
}

-- The calls that the controller makes of its estimator.
pub data Event : Type 0 where
  receiver_estimate : Timestamp → DataRate → Event
  delay_based_estimate : Timestamp → DataRate → Event
  packets_lost : ℕ → ℕ → Timestamp → Event
  rtt_update : TimeDelta → Timestamp → Event
  bitrates : Option DataRate → DataRate → DataRate → Timestamp → Event
  acknowledged : Option DataRate → Event
  estimate : Timestamp → Event
  route_change : Event

-- A report loses no more packets than it covers, and a minimum is at most the default maximum.
abbrev pub IsValid : Event → Type 0
IsValid (packets_lost lost total at_time) = (lost ≤ total) × (total < 2 ^ 53)
IsValid (bitrates start min_rate max_rate at_time) = min_rate ≤ℤ default_max_bitrate
IsValid _ = Unit

-- The events that leave the configured range as it is, or set the target in it.
abbrev pub KeepsRange : Event → Type 0
KeepsRange route_change = ⊥
KeepsRange (bitrates none min_rate max_rate at_time) = ⊥
KeepsRange _ = Unit

pub fraction_le :
    (lost expected : ℕ) → lost ≤ expected → lost < 2 ^ 54 → fraction_of lost expected ≤ 255
fraction_le lost expected h small = omega (arith, fraction_of-eq lost expected h small)

module _ {ℓ} {F : Type ℓ} ⦃fl : Double F⦄ where
  pub step : SendSide F → Event → SendSide F
  step s (receiver_estimate at_time rate) = update_receiver_estimate s at_time rate
  step s (delay_based_estimate at_time rate) = update_delay_based_estimate s at_time rate
  step s (packets_lost lost total at_time) = update_packets_lost s lost total at_time
  step s (rtt_update rtt at_time) = update_rtt s rtt at_time
  step s (bitrates start min_rate max_rate at_time) = set_bitrates s start min_rate max_rate at_time
  step s (acknowledged rate) = set_acknowledged_rate s rate
  step s (estimate at_time) = update_estimate s at_time
  step s route_change = on_route_change s

  update_estimate-IsSound :
      (s : SendSide F) (at_time : Timestamp)
      → IsSound s
      → IsSound (update_estimate s at_time) × IsLimited (update_estimate s at_time)
  update_estimate-IsSound s at_time h =
      update_estimate_cases (λ r. IsSound r × IsLimited r) s at_time
        λ r rate same.
          let sound : IsSound r = ground arith in
          (
            update_target_bitrate-IsSound r rate at_time sound,
            update_target_bitrate-IsLimited r rate at_time sound,
          )

  -- What a report makes of the state before the estimate.
  abbrev pub judged : SendSide F → ℕ → ℕ → Timestamp → SendSide F
  judged s lost total at_time = record s {
    last_loss_feedback = at_time;
    first_report_time = if is_infinite s.first_report_time then at_time else s.first_report_time;
    has_decreased_since_last_fraction_loss = false;
    last_fraction_loss =
        fraction_of (s.lost_packets_since_last_loss_update + lost)
          (s.expected_packets_since_last_loss_update + total);
    lost_packets_since_last_loss_update = 0;
    expected_packets_since_last_loss_update = 0;
    last_loss_packet_report = at_time;
  }

  judged-IsSound :
      (s : SendSide F) (lost total : ℕ) (at_time : Timestamp)
      → IsSound s
      → lost ≤ total
      → total < 2 ^ 53
      → IsSound (judged s lost total at_time)
  judged-IsSound s lost total at_time h le small = ground (
    arith,
    fraction_le (s.lost_packets_since_last_loss_update + lost)
        (s.expected_packets_since_last_loss_update + total),
  )

  update_packets_lost-Keeps :
      (s : SendSide F) (lost total : ℕ) (at_time : Timestamp)
      → IsSound s
      → lost ≤ total
      → total < 2 ^ 53
      → IsSound (update_packets_lost s lost total at_time)
        × (IsLimited s → IsLimited (update_packets_lost s lost total at_time))
  unfolding update_packets_lost
  update_packets_lost-Keeps s lost total at_time h le small =
      let j = judged s lost total at_time in
      let (sound, limits) =
        update_estimate-IsSound j at_time (judged-IsSound s lost total at_time h le small) in
      let heard : SendSide F = record s {
        last_loss_feedback = at_time;
        first_report_time =
            if is_infinite s.first_report_time then at_time else s.first_report_time;
      } in
      (
        ground (
          arith,
          update_uma-keeps (update_estimate j at_time) at_time lost,
          update_uma-keeps heard at_time lost,
        ),
        λ l. ground (
          arith,
          update_uma-keeps (update_estimate j at_time) at_time lost,
          update_uma-keeps heard at_time lost,
        ),
      )

  set_bitrates-Keeps :
      (s : SendSide F) (start : Option DataRate) (min_rate max_rate : DataRate)
      (at_time : Timestamp)
      → IsSound s
      → min_rate ≤ℤ default_max_bitrate
      → IsSound (set_bitrates s start min_rate max_rate at_time)
        × (KeepsRange (bitrates start min_rate max_rate at_time)
            → IsLimited (set_bitrates s start min_rate max_rate at_time))
  unfolding set_bitrates set_send_bitrate
  set_bitrates-Keeps s none min_rate max_rate at_time h le =
      (set_min_max_bitrate-IsSound s min_rate max_rate h le, λ k. absurd k)
  set_bitrates-Keeps s (some rate) min_rate max_rate at_time h le =
      let limited : SendSide F = set_min_max_bitrate s min_rate max_rate in
      let ranged : IsSound limited = set_min_max_bitrate-IsSound s min_rate max_rate h le in
      let started : SendSide F = record limited {
        link_capacity = on_starting_rate limited.link_capacity rate;
        delay_based_limit = plus_infinity;
      } in
      let sound : IsSound started = ground arith in
      let sound' = update_target_bitrate-IsSound started rate at_time sound in
      let limits = update_target_bitrate-IsLimited started rate at_time sound in
      (ground arith, λ k. ground arith)

  limits-Keeps :
      (s r : SendSide F) (at_time : Timestamp)
      → IsSound s
      → SameRange s (record r { delay_based_limit = s.delay_based_limit })
      → IsSound (apply_target_limits r at_time) × IsLimited (apply_target_limits r at_time)
  unfolding apply_target_limits
  limits-Keeps s r at_time h same =
      let sound : IsSound r = ground arith in
      (
        update_target_bitrate-IsSound r r.current_target at_time sound,
        update_target_bitrate-IsLimited r r.current_target at_time sound,
      )

  -- Each call keeps the state sound, and the target in its range unless the call moves the range.
  pub step-Keeps :
      (s : SendSide F) (e : Event)
      → IsSound s
      → IsValid e
      → IsSound (step s e) × (KeepsRange e → IsLimited s → IsLimited (step s e))
  unfolding step update_receiver_estimate update_delay_based_estimate set_acknowledged_rate
      on_route_change
  step-Keeps s (receiver_estimate at_time rate) h v =
      let (a, b) =
        limits-Keeps s (record s { receiver_limit = no_limit_if_zero rate }) at_time h
          (refl, refl, refl, refl, refl, refl, refl) in
      (a, λ _ _. b)
  step-Keeps s (delay_based_estimate at_time rate) h v =
      let (a, b) =
        limits-Keeps s
          (record s {
            link_capacity = tracker_update_delay_based_estimate s.link_capacity at_time rate;
            delay_based_limit = no_limit_if_zero rate;
          })
          at_time h (refl, refl, refl, refl, refl, refl, refl) in
      (a, λ _ _. b)
  step-Keeps s (packets_lost lost total at_time) h (le, small) =
      let (a, b) = update_packets_lost-Keeps s lost total at_time h le small in (a, λ _ l. b l)
  step-Keeps s (rtt_update rtt at_time) h v = (
    ground (arith, update_rtt-keeps s rtt at_time),
    λ k l. ground (arith, update_rtt-keeps s rtt at_time),
  )
  step-Keeps s (bitrates start min_rate max_rate at_time) h v =
      let (a, b) = set_bitrates-Keeps s start min_rate max_rate at_time h v in (a, λ k _. b k)
  step-Keeps s (acknowledged rate) h v = (ground arith, λ k l. l)
  step-Keeps s (estimate at_time) h v =
      let (a, b) = update_estimate-IsSound s at_time h in (a, λ _ _. b)
  step-Keeps s route_change h v = (ground arith, λ k l. absurd k)
