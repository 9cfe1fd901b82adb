-- ===== src/Receiver/Tests.antt =====
-- A receiver that starts at 300 kbps, and two packets, the second of which comes half a second later.
use gcc_chrome.Common.{
  ℕ, ◌+◌, ◌*◌, ◌≤◌, ◌≡◌, refl, Bool, true, false, none, some, List, [], ◌∷◌, arith,
}
use gcc_chrome.Common.Fixed.{Fixed, fixed}
use gcc_chrome.Common.Int.{pos}
use gcc_chrome.Common.Lists.{length}
use gcc_chrome.Common.Result.{ok}
use gcc_chrome.Unit.{Timestamp, add, millis, seconds}
use gcc_chrome.Packet.{Text, DataPacket, default_packet_size}
use gcc_chrome.Controller.{Config}
use gcc_chrome.Receiver.Debug.{
  calls, new_receiver_debuger, sum, came_in, calls-counts, on_call, count_packet, print_info,
}
use gcc_chrome.Receiver.{Receiver, new_receiver}
use gcc_chrome.Receiver.Reports.{IsTold, run, packets_complete}

abbrev config : Config Fixed
config = record {
  constraints = record {
    at_time = seconds 1;
    min_data_rate = none;
    max_data_rate = none;
    starting_rate = some (pos 300_000);
  };
  pacing_factor = none;
  min_total_allocated_bitrate = none;
  max_padding_rate = none;
}

abbrev packet : ℕ → ℕ → DataPacket × Timestamp × Timestamp
packet number time = (
  record { sequence_number = number; size = default_packet_size; send_time = millis time },
  millis (time + 20),
  millis (time + 20),
)

abbrev packets : List (DataPacket × Timestamp × Timestamp)
packets = packet 1 1_000 ∷ packet 2 1_500 ∷ []

packets_complete_example :
    (s : Receiver Fixed) × (new_receiver config false false ≡ some s)
    × (r : Receiver Fixed) × (texts : List Text) × (run s packets ≡ ok (r, texts))
    × IsTold r
    × (length texts ≤ 2 * length packets)
packets_complete_example =
    packets_complete Fixed config false false (pos 300_000) packets refl (omega arith)

-- A packet in the first second, and one after it.
abbrev call_times : List (Bool × ℕ × ℕ)
call_times =
    (true, 500_000, 500_001) ∷ (false, 900_000, 900_000) ∷ (true, 1_500_000, 1_500_003) ∷ []

calls-counts_example :
    let r = calls (new_receiver_debuger (pos 0)) call_times in
    (sum r.1 + r.0.packet_received ≡ 0 + came_in call_times)
    × (0 + length r.1 * 1_000_001 ≤ 2_000_000)
unfolding new_receiver_debuger
calls-counts_example =
    calls-counts call_times (new_receiver_debuger (pos 0)) 0 0 2_000_000 refl refl (omega arith)
      (
        omega arith,
        omega arith,
        (omega arith, omega arith, (omega arith, omega arith, omega arith)),
      )
      (omega arith) (omega arith)

two_counted : (calls (new_receiver_debuger (pos 0)) call_times).1 ≡ 2 ∷ []
unfolding new_receiver_debuger calls on_call count_packet print_info add
two_counted = refl
