-- ===== src/NetworkTypes/Tests.antt =====
-- A feedback of three packets, the second of which is lost.
use gcc_chrome.Common.{ℕ, ◌≡◌, refl, false, [], ◌∷◌, ◌++◌}
use gcc_chrome.Common.Int.{pos}
use gcc_chrome.Unit.{Timestamp, plus_infinity, seconds}
use gcc_chrome.NetworkTypes.{
  PacketResult, TransportPacketsFeedback, lost_with_send_info, sorted_by_receive_time,
}
use gcc_chrome.NetworkTypes.Sorted.{AreInOrder, sorted_by_receive_time_lem}
use mathlib.Core.List.{Perm}

abbrev packet : ℕ → Timestamp → PacketResult
packet number time = record {
  sent_packet = record {
    send_time = pos number;
    size = pos 1200;
    prior_unacked_data = pos 0;
    audio = false;
    sequence_number = number;
  };
  receive_time = time;
}

abbrev feedback : TransportPacketsFeedback
feedback = record {
  feedback_time = seconds 9;
  packet_feedbacks = packet 1 (seconds 3) ∷ packet 2 plus_infinity ∷ packet 3 (seconds 2) ∷ [];
}

by_time : sorted_by_receive_time feedback ≡ packet 3 (seconds 2) ∷ packet 1 (seconds 3) ∷ []
unfolding sorted_by_receive_time gcc_chrome.Unit.is_plus_infinity
by_time = refl

sorted_by_receive_time_lem_example :
    AreInOrder (sorted_by_receive_time feedback)
    × Perm
        (sorted_by_receive_time feedback ++ lost_with_send_info feedback.packet_feedbacks)
        feedback.packet_feedbacks
sorted_by_receive_time_lem_example = sorted_by_receive_time_lem feedback
