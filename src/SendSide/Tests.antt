-- ===== src/SendSide/Tests.antt =====
-- The sender's estimator on concrete calls.
use Prim.Native.Nat.{min}
use gcc_chrome.Common.{◌*◌, ◌/◌, ◌≡◌, ◌⊎◌, true, false, some, List, [], ◌∷◌, ◌++◌, arith}
use gcc_chrome.Common.Fixed.{Fixed, fixed}
use gcc_chrome.Common.Int.{pos, ◌≤ℤ◌, max_ℤ}
use gcc_chrome.Common.Lists.{All}
use gcc_chrome.Unit.{seconds, millis}
use gcc_chrome.SendSide.{SendSide, new_send_side, min_bitrate}
use gcc_chrome.SendSide.Target.{target_rate}
use gcc_chrome.SendSide.Estimate.{Entry, fraction_of, is_old, front_rate, update_min_history}
use gcc_chrome.SendSide.History.{time, rate, Any}
use gcc_chrome.SendSide.Rise.{fixed-IsRaised, update_estimate-rises}
use gcc_chrome.Common.{ℕ, ◌+◌}
use gcc_chrome.SendSide.Target.{is_in_start_phase}
use gcc_chrome.SendSide.Estimate.{update_estimate}
use gcc_chrome.SendSide.Window.{remember, front-is-minimum}
use gcc_chrome.SendSide.Fraction.{fraction_of-eq}
use gcc_chrome.SendSide.Limits.{limited}
use gcc_chrome.SendSide.Events.{
  Event, IsValid, bitrates, packets_lost, receiver_estimate, estimate, rtt_update,
}
use gcc_chrome.Unit.{is_infinite, sub, add, scale}
use gcc_chrome.Common.{refl, false}
use gcc_chrome.Common.Int.{◌<ℤ◌}
use gcc_chrome.SendSide.Estimate.{update_by_loss}
use gcc_chrome.SendSide.Loss.{fixed-IsExact, update_by_loss-cuts}
use gcc_chrome.SendSide.Reach.{run, target_rate_in_range}

-- A configured range, two reports, a limit from the receiver and a call of the process timer.
abbrev calls : List Event
calls =
    bitrates (some (pos 300_000)) (pos 50_000) (pos 2_000_000) (seconds 1)
    ∷ packets_lost 2 40 (seconds 2)
    ∷ rtt_update (millis 80) (seconds 2)
    ∷ packets_lost 30 60 (seconds 3)
    ∷ receiver_estimate (seconds 4) (pos 200_000)
    ∷ estimate (seconds 5)
    ∷ []

abbrev after_calls : SendSide Fixed
after_calls = run new_send_side calls

calls-IsValid : All IsValid calls
calls-IsValid = omega arith

target_rate_in_range_example :
    (min_bitrate ≤ℤ after_calls.min_bitrate_configured)
    × (after_calls.min_bitrate_configured ≤ℤ after_calls.current_target)
    × (after_calls.current_target ≤ℤ after_calls.max_bitrate_configured)
    × (target_rate after_calls ≤ℤ after_calls.max_bitrate_configured)
    × (target_rate after_calls
        ≤ℤ max_ℤ after_calls.min_bitrate_configured after_calls.receiver_limit)
target_rate_in_range_example = target_rate_in_range Fixed calls calls-IsValid (omega arith)

fraction_of-eq_example : fraction_of 5 40 ≡ min (5 * 256 / 40) 255
fraction_of-eq_example = fraction_of-eq 5 40 (omega arith) (omega arith)

abbrev two_samples : List Entry
two_samples = (millis 100, pos 300_000) ∷ (millis 200, pos 200_000) ∷ []

front-is-minimum_example :
    let pushed = two_samples ++ (millis 300, pos 250_000) ∷ [] in
    let front =
      front_rate
        (pos 250_000)
        (update_min_history (remember [] two_samples) (pos 250_000) (millis 300)) in
    All (λ e. (is_old (millis 300) (time e) ≡ true) ⊎ (front ≤ℤ rate e)) pushed
    × Any (λ e. (is_old (millis 300) (time e) ≡ false) × (front ≡ rate e)) pushed
front-is-minimum_example =
    front-is-minimum two_samples (millis 300) (pos 250_000) (omega arith) (omega arith)

-- A sender at 1 Mbps whose last report, a second ago, lost 20% of the packets.
abbrev lossy_sender : SendSide Fixed
lossy_sender = record (new_send_side {F = Fixed}) {
  current_target = pos 1_000_000;
  last_fraction_loss = 51;
  last_loss_packet_report = seconds 9;
  time_last_decrease = seconds 5;
  last_round_trip_time = millis 80;
}

lossy_sender_heard : is_infinite lossy_sender.last_loss_packet_report ≡ false
unfolding is_infinite
lossy_sender_heard = refl

lossy_sender_recent :
    sub (seconds 10) lossy_sender.last_loss_packet_report
    <ℤ scale {F = Fixed} (millis 5000) (fixed.decimal (pos 12) 1)
unfolding sub scale fixed
lossy_sender_recent = omega arith

lossy_sender_waited :
    add (millis 300) lossy_sender.last_round_trip_time
    ≤ℤ sub (seconds 10) lossy_sender.time_last_decrease
unfolding sub add
lossy_sender_waited = omega arith

lossy_sender_first : lossy_sender.has_decreased_since_last_fraction_loss ≡ false
unfolding new_send_side
lossy_sender_first = refl

update_by_loss-cuts_example :
    let after = update_by_loss lossy_sender (seconds 10) in
    (after.current_target ≡ limited lossy_sender (pos 900_390))
    × (after.current_target
        ≤ℤ max_ℤ lossy_sender.current_target lossy_sender.min_bitrate_configured)
    × (after.has_decreased_since_last_fraction_loss ≡ true)
update_by_loss-cuts_example =
    update_by_loss-cuts Fixed lossy_sender (seconds 10) 1_000_000 fixed-IsExact refl (omega arith)
      (omega arith) (omega arith) lossy_sender_heard lossy_sender_recent lossy_sender_first
      lossy_sender_waited

-- The same sender ten seconds after its first report, when its last one lost 1% of the packets.
abbrev calm_sender : SendSide Fixed
calm_sender = record lossy_sender {
  last_fraction_loss = 3;
  first_report_time = pos 0;
  min_bitrate_history = remember [] two_samples;
}

calm_sender_started : is_in_start_phase calm_sender (seconds 10) ≡ false
unfolding is_in_start_phase is_infinite sub
calm_sender_started = ground arith

update_estimate-rises_example :
    let pushed = two_samples ++ (seconds 10, pos 1_000_000) ∷ [] in
    (least : ℕ) × ((update_estimate calm_sender (seconds 10)).current_target
      ≡ limited calm_sender (pos ((108 * least + 50) / 100 + 1000)))
    × All (λ e. (is_old (seconds 10) (time e) ≡ true) ⊎ (pos least ≤ℤ rate e)) pushed
    × Any (λ e. (is_old (seconds 10) (time e) ≡ false) × (pos least ≡ rate e)) pushed
update_estimate-rises_example =
    update_estimate-rises Fixed calm_sender two_samples (seconds 10) fixed-IsRaised refl
      (omega arith) (omega arith) (omega arith) (omega arith) calm_sender_started lossy_sender_heard
      lossy_sender_recent
