-- ===== src/Controller/Feedback.antt =====
-- OnTransportPacketsFeedback of google_cc/goog_cc_network_control.cc. The loops that look for the least
-- propagation time are left out, since `UpdatePropagationRtt` does nothing with it. The counters of
-- packets, which are of type `int`, do not wrap.
use gcc_chrome.Common.{
  ℕ, ◌+◌, ◌/◌, Bool, true, false, Option, none, some, List, [], ◌∷◌, ◌++◌, ltb, not, if◌then◌else◌,
}
use gcc_chrome.Common.Double.{Double}
use gcc_chrome.Common.Int.{ℤ, pos, ◌+ℤ◌, int32, int64, to_u64, of_u64, ltb_ℤ, max_ℤ, min_ℤ}
use gcc_chrome.Common.Lists.{length}
use gcc_chrome.Unit.{
  Timestamp, TimeDelta, plus_infinity, minus_infinity, is_finite, add, sub, seconds, time_delta_ms,
  from_fraction,
}
use gcc_chrome.NetworkTypes.{
  PacketResult, TransportPacketsFeedback, is_received, received_with_send_info,
  sorted_by_receive_time,
}
use gcc_chrome.SendSide.Target.{set_acknowledged_rate, update_rtt}
use gcc_chrome.SendSide.Estimate.{update_packets_lost}
use gcc_chrome.Acknowledged.{incoming_packet_feedback_vector, acknowledged_bitrate}
use gcc_chrome.DelayBased.Update as Delay
use gcc_chrome.Controller.{Controller}

abbrev pub max_feedback_rtt_window : ℕ
max_feedback_rtt_window = 32

abbrev pub loss_update_interval : TimeDelta
loss_update_interval = seconds 1

-- The loops over the received packets.
unfoldable pub latest_receive_time : List PacketResult → Timestamp → Timestamp
latest_receive_time [] latest = latest
latest_receive_time (p ∷ ps) latest = latest_receive_time ps (max_ℤ latest p.receive_time)

unfoldable pub largest_rtt : List PacketResult → Timestamp → TimeDelta → TimeDelta
largest_rtt [] feedback_time largest = largest
largest_rtt (p ∷ ps) feedback_time largest =
    largest_rtt ps feedback_time (max_ℤ largest (sub feedback_time p.sent_packet.send_time))

unfoldable pub least_rtt : List PacketResult → Timestamp → Timestamp → TimeDelta → TimeDelta
least_rtt [] feedback_time latest least = least
least_rtt (p ∷ ps) feedback_time latest least =
    let pending = sub p.receive_time latest in
    least_rtt ps feedback_time latest
      (min_ℤ (sub (sub feedback_time p.sent_packet.send_time) pending) least)

unfoldable pub lost_count : List PacketResult → ℕ
lost_count [] = 0
lost_count (p ∷ ps) = (if not (is_received p) then 1 else 0) + lost_count ps

-- `std::accumulate` from an `int`.
unfoldable pub sum_rtts : List ℤ → ℤ → ℤ
sum_rtts [] sum = sum
sum_rtts (x ∷ xs) sum = sum_rtts xs (int32 (int64 (sum +ℤ x)))

abbrev pop_front : List ℤ → List ℤ
pop_front [] = []
pop_front (x ∷ xs) = xs

unfoldable pub push_rtt : List ℤ → ℤ → List ℤ
push_rtt rtts rtt_ms =
    let pushed = rtts ++ rtt_ms ∷ [] in
    if ltb max_feedback_rtt_window (length pushed) then pop_front pushed else pushed

abbrev pub is_nil : List PacketResult → Bool
is_nil [] = true
is_nil (p ∷ ps) = false

module _ {ℓ} {F : Type ℓ} ⦃fl : Double F⦄ where
  unfoldable pub record_rtt : Controller F → List PacketResult → Timestamp → Controller F
  record_rtt s feedbacks feedback_time =
      let rtt = largest_rtt feedbacks feedback_time minus_infinity in
      if is_finite rtt
      then record s { feedback_max_rtts = push_rtt s.feedback_max_rtts (time_delta_ms rtt) }
      else s

  -- The mean round trip time, in unsigned arithmetic.
  unfoldable pub mean_rtt : List ℤ → Controller F → Controller F
  mean_rtt [] s = s
  mean_rtt (x ∷ xs) s =
      let mean = of_u64 (to_u64 (sum_rtts (x ∷ xs) (pos 0)) / length (x ∷ xs)) in
      record s { delay_based_bwe = Delay.on_rtt_update s.delay_based_bwe (from_fraction 1000 mean) }

  unfoldable pub least_rtt_update : Controller F → List PacketResult → Timestamp → Controller F
  least_rtt_update s feedbacks feedback_time =
      let latest = latest_receive_time feedbacks minus_infinity in
      let rtt = least_rtt feedbacks feedback_time latest plus_infinity in
      if is_finite rtt
      then record s { bandwidth_estimation = update_rtt s.bandwidth_estimation rtt feedback_time }
      else s

  -- The counters are of type `int` in the source; totals of 2^31 and more are not modelled.
  unfoldable pub count_losses : Controller F → TransportPacketsFeedback → Controller F
  count_losses s report =
      let expected = s.expected_packets_since_last_loss_update + length report.packet_feedbacks in
      let lost = s.lost_packets_since_last_loss_update + lost_count report.packet_feedbacks in
      if ltb_ℤ s.next_loss_update report.feedback_time
      then record s {
        next_loss_update = add report.feedback_time loss_update_interval;
        bandwidth_estimation =
            update_packets_lost s.bandwidth_estimation lost expected report.feedback_time;
        expected_packets_since_last_loss_update = 0;
        lost_packets_since_last_loss_update = 0;
      }
      else record s {
        expected_packets_since_last_loss_update = expected;
        lost_packets_since_last_loss_update = lost;
      }

  -- What the controller does with the packets alone, when there are no other reports.
  unfoldable pub packet_feedback :
      Controller F → List PacketResult → TransportPacketsFeedback → Controller F
  packet_feedback s feedbacks report =
      if s.packet_feedback_only
      then count_losses
          (least_rtt_update (mean_rtt s.feedback_max_rtts s) feedbacks report.feedback_time) report
      else s

  -- The acknowledged rate goes to the send-side estimator and to the delay-based one.
  unfoldable pub estimate : Controller F → TransportPacketsFeedback → Option (Controller F)
  estimate s report =
      let acknowledged =
        incoming_packet_feedback_vector s.acknowledged (sorted_by_receive_time report) in
      let rate = acknowledged_bitrate acknowledged in
      elim (Delay.incoming_packet_feedback_vector s.delay_based_bwe report rate s.estimate false) [
        | none ↦ none
        | some (delay_based_bwe, result) ↦ some (record s {
          acknowledged = acknowledged;
          bandwidth_estimation = set_acknowledged_rate s.bandwidth_estimation rate;
          delay_based_bwe = delay_based_bwe;
          recent_result = result;
        })
      ]

  unfoldable pub on_transport_packets_feedback :
      Controller F → TransportPacketsFeedback → Option (Controller F)
  on_transport_packets_feedback s report =
      let feedbacks = received_with_send_info report.packet_feedbacks in
      if is_nil report.packet_feedbacks
      then some s
      else estimate (packet_feedback (record_rtt s feedbacks report.feedback_time) feedbacks report)
          report
