-- ===== src/Sender/Tests.antt =====
-- The sender on concrete reports.
use Prim.Native.Nat.{max}
use gcc_chrome.Common.{ℕ, ◌+◌, ◌*◌, ◌≤◌, List, [], ◌∷◌, ◌≡◌, refl, true, false, arith}
use gcc_chrome.Common.Fixed.{Fixed, fixed}
use gcc_chrome.Common.Int.{pos}
use gcc_chrome.Common.Lists.{length}
use gcc_chrome.Common.Result.{ok}
use gcc_chrome.Unit.{seconds}
use gcc_chrome.SendSide.{new_send_side, initial_pacing_rate}
use gcc_chrome.SendSide.Estimate.{update_packets_lost}
use gcc_chrome.Packet.{Text, RrPacket, RembPacket, new_rr_packet, serialize_rr, serialize_remb}
use gcc_chrome.Sender.{Sender, min_pacing_rate, on_packet_received}
use gcc_chrome.Sender.Pacing.{interval, run, run-paced}
use gcc_chrome.Sender.Reports.{on_packet_received-serialize_rr, on_packet_received-serialize_remb}

abbrev sender : Sender Fixed
sender = record {
  bandwidth_estimation = new_send_side;
  packet_feedback_only = false;
  recent_packet_number = 0;
  recent_rr_packet = new_rr_packet;
  pacing_rate = initial_pacing_rate;
  next_send_timestamp = pos 0;
}

abbrev loss_report : RrPacket
loss_report = record {
  start_time = pos 1_000_000;
  end_time = pos 1_400_000;
  packets_lost_delta = 3;
  packets_received_delta = 117;
}

abbrev rate_report : RembPacket
rate_report = record { bandwidth = pos 350_000 }

on_packet_received-serialize_rr_example :
    (r : Sender Fixed) × (on_packet_received sender (serialize_rr loss_report) (seconds 2) ≡ ok r)
    × (r.bandwidth_estimation
        ≡ update_packets_lost sender.bandwidth_estimation 3 (117 + 3) (seconds 2))
    × (r.recent_rr_packet ≡ loss_report)
    × (min_pacing_rate ≤ r.pacing_rate)
on_packet_received-serialize_rr_example =
    on_packet_received-serialize_rr Fixed sender loss_report (seconds 2) refl (omega arith)
      (omega arith) (omega arith) (omega arith)

new_caps : (new_send_side {F = Fixed}).receiver_limit_caps_only ≡ true
unfolding new_send_side
new_caps = refl

new_floor : (new_send_side {F = Fixed}).min_bitrate_configured ≡ pos 5000
unfolding new_send_side
new_floor = refl

on_packet_received-serialize_remb_example :
    (r : Sender Fixed) × (on_packet_received sender (serialize_remb rate_report) (seconds 2) ≡ ok r)
    × (r.pacing_rate ≤ max (max 350_000 5000) min_pacing_rate)
    × (min_pacing_rate ≤ r.pacing_rate)
on_packet_received-serialize_remb_example =
    on_packet_received-serialize_remb Fixed sender rate_report (seconds 2) 350_000 5000 refl
      new_caps new_floor (omega arith) refl (omega arith) (omega arith)

-- Three calls within 50 ms.
abbrev ticks : List (ℕ × ℕ × ℕ)
ticks = (1_000, 1_001, 1_002) ∷ (20_000, 20_000, 20_000) ∷ (50_000, 50_001, 50_003) ∷ []

ticks_interval : interval Fixed initial_pacing_rate ≡ pos 23_552
unfolding fixed
ticks_interval = refl

run-paced_example :
    (r : Sender Fixed) × (texts : List Text) × (run Fixed sender ticks ≡ ok (r, texts))
    × (0 + length texts * 23_552 ≤ max 0 (50_003 + 23_552))
run-paced_example =
    run-paced Fixed sender ticks 0 1_000 50_003 23_552 (omega arith) ticks_interval refl
      (omega arith) (omega arith)
