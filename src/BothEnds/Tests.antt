-- ===== src/BothEnds/Tests.antt =====
-- The two programs on two data packets.
use Prim.Native.Nat.{max}
use gcc_chrome.Common.{ℕ, ◌+◌, ◌*◌, ◌≤◌, ◌≡◌, refl, false, none, some, List, [], ◌∷◌, arith}
use gcc_chrome.Common.Fixed.{Fixed, fixed}
use gcc_chrome.Common.Int.{pos, to_u64}
use gcc_chrome.Common.Result.{ok}
use gcc_chrome.Unit.{Timestamp, millis, seconds}
use gcc_chrome.Packet.{Text, DataPacket, default_packet_size}
use gcc_chrome.Controller.{Config}
use gcc_chrome.Sender.{Sender, started_sender, min_pacing_rate}
use gcc_chrome.Receiver.{Receiver, new_receiver}
use gcc_chrome.Receiver.Reports.{run}
use gcc_chrome.Sender.Told.{heard_limit}
use gcc_chrome.BothEnds.{hear, hear-run}

abbrev config : Config Fixed
config = record {
  constraints = record {
    at_time = seconds 1;
    min_data_rate = none;
    max_data_rate = none;
    starting_rate = some (pos 500_000);
  };
  pacing_factor = none;
  min_total_allocated_bitrate = none;
  max_padding_rate = none;
}

abbrev packet : ℕ → ℕ → DataPacket × Timestamp × Timestamp
packet number time = (
  record { sequence_number = number; size = default_packet_size; send_time = millis time },
  millis (time + 30),
  millis (time + 31),
)

abbrev packets : List (DataPacket × Timestamp × Timestamp)
packets = packet 1 2_000 ∷ packet 4 2_700 ∷ []

abbrev now : ℕ → Timestamp
now k = millis (2_800 + 10 * k)

hear-run_example :
    (s : Receiver Fixed) × (new_receiver config false false ≡ some s)
    × (r : Receiver Fixed) × (texts : List Text) × (run s packets ≡ ok (r, texts))
    × (t : Sender Fixed) × (hear started_sender now texts ≡ ok t)
    × (t.bandwidth_estimation.receiver_limit ≡ heard_limit r.last_remb_rate)
    × (min_pacing_rate ≤ t.pacing_rate)
    × (t.pacing_rate ≤ max (to_u64 (heard_limit r.last_remb_rate)) min_pacing_rate)
hear-run_example = hear-run Fixed config false false (pos 500_000) packets now refl (omega arith)
