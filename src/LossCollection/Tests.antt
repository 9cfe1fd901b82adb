-- ===== src/LossCollection/Tests.antt =====
-- The receiver's loss reports on concrete packets.
use gcc_chrome.Common.{List, ◌+◌, ◌≡◌, ℕ, refl, true, false, [], ◌∷◌, arith}
use gcc_chrome.Common.Fixed.{Fixed, fixed}
use gcc_chrome.Common.Int.{pos}
use gcc_chrome.Common.Lists.{length}
use gcc_chrome.Common.Result.{ok, err}
use gcc_chrome.Unit.{millis}
use gcc_chrome.NetworkTypes.{PacketResult}
use gcc_chrome.Unit.{add}
use gcc_chrome.NetworkTypes.{empty_loss_report}
use gcc_chrome.LossCollection.{
  maybe_generate_report, report_due, report_of, on_new_report_generated, reset, new_receive_vector,
}
use gcc_chrome.LossCollection.{
  ReceiveVector, ReceiverLossCollection, LossReportUpdate, new_collection, wait, assertion,
  out_of_bounds, received_count, loss_count, on_transport_packet_feedback,
}
use gcc_chrome.LossCollection.Window.{IsIdle, IsWindow}
use gcc_chrome.LossCollection.Invariant.{pending}
use gcc_chrome.LossCollection.Stream.{
  Advances, reported, collect, collect-InOrder, on_transport_packet_feedback-Advances,
  new_collection-Between,
}
use gcc_chrome.LossCollection.Late.{late_packet_asserts, overtaken_packet_out_of_bounds}

abbrev packet : ℕ → ℕ → PacketResult
packet number ms = record {
  sent_packet = record {
    send_time = pos 0;
    size = pos 1472;
    prior_unacked_data = pos 0;
    audio = false;
    sequence_number = number;
  };
  receive_time = millis ms;
}

abbrev three_packets : List PacketResult
three_packets = packet 1 10 ∷ packet 3 20 ∷ packet 4 500 ∷ []

collect-InOrder_example :
    (s : ReceiverLossCollection) × (rs : List LossReportUpdate) × (collect Fixed new_collection
        three_packets
      ≡ ok (s, rs))
    × (length rs ≡ 3)
    × (reported Fixed rs + pending s ≡ 3)
collect-InOrder_example = collect-InOrder Fixed three_packets (omega arith)

on_transport_packet_feedback-Advances_example : Advances Fixed new_collection (packet 1 10)
on_transport_packet_feedback-Advances_example =
    on_transport_packet_feedback-Advances Fixed new_collection 0 (pos 0) (packet 1 10)
      new_collection-Between (omega arith) (omega arith) (omega arith) (omega arith) (omega arith)

abbrev idle : ReceiveVector
idle = record {
  first_received_time = pos 0;
  largest_received_time = pos 0;
  wait_duration = pos 0;
  first_packet_number = 0;
  largest_packet_number = 0;
  received_vector = [];
  state = wait;
}

idle-IsIdle : IsIdle idle
idle-IsIdle = record {
  empty = refl;
  no_first_time = refl;
  no_largest_time = refl;
  no_largest = refl;
}

-- A window with packets 3 and 5: packet 4 is missing.
abbrev window : ReceiveVector
window = record idle {
  first_received_time = millis 10;
  largest_received_time = millis 30;
  first_packet_number = 3;
  largest_packet_number = 5;
  received_vector = true ∷ false ∷ true ∷ [];
}

window-IsWindow : IsWindow window 5 (millis 30)
unfolding received_count loss_count
window-IsWindow = record {
  filled = refl;
  counted = refl;
  received = omega arith;
  newest = refl;
  first_le = omega arith;
  first_time = omega arith;
  largest_time = omega arith;
  times = omega arith;
  until = omega arith;
}

-- The window in effect, with nothing waiting; and the window waiting, with nothing in effect.
abbrev in_effect_only : ReceiverLossCollection
in_effect_only = record { smooth_rtt = pos 0; in_effect_vector = window; wait_vector = idle }

abbrev waiting_only : ReceiverLossCollection
waiting_only = record {
  smooth_rtt = pos 0;
  in_effect_vector = record idle { first_packet_number = 6 };
  wait_vector = record window { wait_duration = millis 100 };
}

waiting-IsWindow : IsWindow waiting_only.wait_vector 5 (millis 30)
unfolding received_count loss_count
waiting-IsWindow = record {
  filled = refl;
  counted = refl;
  received = omega arith;
  newest = refl;
  first_le = omega arith;
  first_time = omega arith;
  largest_time = omega arith;
  times = omega arith;
  until = omega arith;
}

overtaken_packet_out_of_bounds_example :
    on_transport_packet_feedback Fixed in_effect_only (packet 4 40) ≡ err out_of_bounds
overtaken_packet_out_of_bounds_example =
    overtaken_packet_out_of_bounds Fixed in_effect_only 5 (millis 30) (packet 4 40) window-IsWindow
      idle-IsIdle (omega arith) (omega arith)

late_packet_asserts_example :
    on_transport_packet_feedback Fixed in_effect_only (packet 2 40) ≡ err assertion
late_packet_asserts_example =
    late_packet_asserts Fixed in_effect_only (packet 2 40) idle-IsIdle (omega arith)

-- The waiting window is due 300 milliseconds after its first packet.
abbrev window_report : LossReportUpdate
window_report = record {
  report = record empty_loss_report {
    start_time = millis 10;
    end_time = millis 400;
    packets_received_delta = 2;
    packets_lost_delta = 1;
  };
  updated = true;
}

abbrev after_report : ReceiverLossCollection
after_report = record waiting_only { wait_vector = reset waiting_only.wait_vector }

report_is_made : maybe_generate_report waiting_only (millis 400) ≡ ok (after_report, window_report)
unfolding maybe_generate_report report_due report_of on_new_report_generated received_count
    loss_count reset new_receive_vector add
report_is_made = refl
