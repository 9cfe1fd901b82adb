-- ===== src/Packet/Tests.antt =====
-- The packets' texts on concrete packets.
use gcc_chrome.Common.{◌≡◌, ◌≤◌, ◌^◌, ◌∷◌, [], arith, refl}
use gcc_chrome.Common.Int.{pos, to_u64}
use gcc_chrome.Common.Result.{ok, err}
use gcc_chrome.Packet.{
  DataPacket, RrPacket, RembPacket, new_data_packet, new_rr_packet, new_remb_packet, paused,
  serialize_data, serialize_rr, serialize_remb, un_serialize_data, un_serialize_rr,
  un_serialize_remb, stoul, read_digits, read_number, read_signed, get_type, substr,
  string_to_packet_type, equal_text, packet_type_to_string,
}
use gcc_chrome.Packet.RoundTrip.{
  un_serialize-serialize_data, un_serialize-serialize_rr, un_serialize-serialize_remb_overflow,
}

abbrev data_packet : DataPacket
data_packet = record { sequence_number = 42; size = 1472; send_time = pos 1_500_000 }

abbrev rr_packet : RrPacket
rr_packet = record {
  start_time = pos 1_000_000;
  end_time = pos 1_400_000;
  packets_lost_delta = 3;
  packets_received_delta = 117;
}

abbrev remb_packet : RembPacket
remb_packet = record { bandwidth = pos 850_000 }

abbrev fast_packet : RembPacket
fast_packet = record { bandwidth = pos 20_000_000_000 }

un_serialize-serialize_data_example :
    un_serialize_data (serialize_data data_packet) new_data_packet ≡ ok data_packet
un_serialize-serialize_data_example =
    un_serialize-serialize_data data_packet new_data_packet (omega arith) (omega arith)
      (omega arith)

un_serialize-serialize_rr_example :
    un_serialize_rr (serialize_rr rr_packet) new_rr_packet ≡ ok rr_packet
un_serialize-serialize_rr_example =
    un_serialize-serialize_rr rr_packet new_rr_packet (omega arith) (omega arith) (omega arith)
      (omega arith)

too_fast : 10 ^ 10 ≤ to_u64 fast_packet.bandwidth
unfolding to_u64
too_fast = omega arith

un_serialize-serialize_remb_overflow_example :
    un_serialize_remb (serialize_remb fast_packet) remb_packet ≡ ok new_remb_packet
un_serialize-serialize_remb_overflow_example =
    un_serialize-serialize_remb_overflow fast_packet remb_packet too_fast

-- A text that starts with no known type.
unknown_type : get_type (57 ∷ 57 ∷ 48 ∷ []) ≡ err paused
unfolding get_type substr string_to_packet_type equal_text packet_type_to_string
unknown_type = refl

-- `stoul` skips spaces, and stops at a character that is no digit.
stoul_spaces : stoul (32 ∷ 49 ∷ 50 ∷ 46 ∷ []) ≡ ok 12
unfolding stoul read_signed read_number read_digits
stoul_spaces = refl
