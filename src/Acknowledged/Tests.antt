-- ===== src/Acknowledged/Tests.antt =====
-- The acknowledged bit rate of four packets of 1200 bytes.
use gcc_chrome.Common.{◌≡◌, refl, false, Option, none, some, List, [], ◌∷◌, arith}
use gcc_chrome.Common.Fixed.{Fixed, fixed}
use gcc_chrome.Common.Int.{pos, ◌+ℤ◌, ◌-ℤ◌, int64, int32}
use gcc_chrome.Unit.{kilobits_per_sec, from_double, timestamp_ms, add, DataRate}
use gcc_chrome.NetworkTypes.{PacketResult}
use gcc_chrome.Acknowledged.{
  BitrateEstimator, new_bitrate_estimator, new_acknowledged, sample_of, update, update_window,
  advance, window_of, weigh, kbps_float, bitrate, incoming_packet_feedback_vector,
  acknowledged_bitrate, incoming_packet,
}
use gcc_chrome.Acknowledged.Window.{Arrival, time_of, total_bytes, run, first_estimate}

abbrev first : Arrival
first = record { ms = 1_000; bytes = 1_200 }

abbrev rest : List Arrival
rest = record { ms = 1_200; bytes = 1_200 } ∷ record { ms = 1_450; bytes = 1_200 } ∷ []

abbrev final : Arrival
final = record { ms = 1_600; bytes = 1_200 }

unfoldable waiting : BitrateEstimator Fixed
waiting = run new_bitrate_estimator (first ∷ rest)

first_estimate_example :
    (bitrate waiting ≡ none)
    × (bitrate (update waiting (time_of final.ms) (pos final.bytes))
        ≡ some (kilobits_per_sec (sample_of {F = Fixed} (pos (total_bytes (first ∷ rest))) 500)))
    × ((update waiting (time_of final.ms) (pos final.bytes)).sum ≡ pos final.bytes)
unfolding waiting sample_of fixed ◌+ℤ◌ ◌-ℤ◌
first_estimate_example =
    first_estimate Fixed first rest final refl refl (omega arith) (omega arith) (omega arith)
      (omega arith)

-- 3600 bytes in half a second are 57.6 kbps.
first_rate : kilobits_per_sec (sample_of {F = Fixed} (pos 3_600) 500) ≡ pos 57_600
unfolding kilobits_per_sec from_double sample_of fixed
first_rate = refl

abbrev packet : Arrival → PacketResult
packet a = record {
  sent_packet = record {
    send_time = time_of a.ms;
    size = pos a.bytes;
    prior_unacked_data = pos 0;
    audio = false;
    sequence_number = a.ms;
  };
  receive_time = time_of a.ms;
}

unfoldable acknowledged : List PacketResult → Option DataRate
unfolding acknowledged_bitrate incoming_packet_feedback_vector incoming_packet new_acknowledged
    bitrate update update_window advance window_of weigh kbps_float sample_of fixed ◌+ℤ◌ ◌-ℤ◌ int64
    int32 kilobits_per_sec from_double timestamp_ms add
acknowledged packets =
    acknowledged_bitrate
      (incoming_packet_feedback_vector (new_acknowledged {F = Fixed} false) packets)

-- The first estimate is 19.2 kbps, and a window of 150 ms at 96 kbps raises it.
weighed :
    acknowledged (
      packet first
      ∷ packet (record { ms = 1_500; bytes = 1_200 })
      ∷ packet (record { ms = 1_600; bytes = 600 })
      ∷ packet (record { ms = 1_700; bytes = 600 })
      ∷ [])
    ≡ some (pos 21_752)
unfolding acknowledged gcc_chrome.Unit.to_double
weighed = refl
