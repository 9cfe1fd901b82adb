-- ===== src/Sender/Debug.antt =====
-- chrome_gcc/src/sender.h and sender.cc: the state that the log shows, and the counters that SendPacket
-- and ReceivePacket keep, with their lines; SendControl is of common/defs.h.
use gcc_chrome.Common.{ℕ, ◌+◌, ◌%◌, ◌^◌, if◌then◌else◌, List, [], ◌∷◌}
use gcc_chrome.Common.Int.{ℤ, to_u64, ltb_ℤ}
use gcc_chrome.Packet.{PacketType, data_type, rr_type, remb_type}
use gcc_chrome.Unit.{Timestamp, TimeDelta, seconds, add}
use gcc_chrome.Sender.{Sender}

pub record SendControl : Type 0 where
  pub pacing_rate : ℕ
  pub next_send_timestamp : ℤ

pub record DebugState : Type 0 where
  pub send_control : SendControl
  pub receiver_limit : ℕ
  pub packets_lost_delta : ℕ
  pub packets_received_delta : ℕ

unfoldable pub export_debug_state {ℓ} : {F : Type ℓ} → Sender F → DebugState
export_debug_state s = record {
  send_control = record {
    pacing_rate = s.pacing_rate;
    next_send_timestamp = s.next_send_timestamp;
  };
  receiver_limit = to_u64 s.bandwidth_estimation.receiver_limit;
  packets_lost_delta = s.recent_rr_packet.packets_lost_delta;
  packets_received_delta = s.recent_rr_packet.packets_received_delta;
}

pub record SenderDebuger : Type 0 where
  pub print_info_duration : TimeDelta
  pub last_print_timestamp : Timestamp
  pub packet_sent : ℕ
  pub rr_packet_received : ℕ
  pub remb_packet_received : ℕ

unfoldable pub new_sender_debuger : Timestamp → SenderDebuger
new_sender_debuger now = record {
  print_info_duration = seconds 1;
  last_print_timestamp = now;
  packet_sent = 0;
  rr_packet_received = 0;
  remb_packet_received = 0;
}

-- The numbers of a line.
pub record Line : Type 0 where
  pub line_pacing_rate : ℕ
  pub packets_sent : ℕ
  pub rr_packets : ℕ
  pub remb_packets : ℕ

-- `OnReceivePacket`, at the times of its two calls of `Now`.
unfoldable pub on_receive_packet :
    SenderDebuger → SendControl → Timestamp → Timestamp → SenderDebuger × List Line
on_receive_packet d control now then_now =
    if ltb_ℤ (add d.last_print_timestamp d.print_info_duration) now
    then (
      record d {
        last_print_timestamp = then_now;
        packet_sent = 0;
        rr_packet_received = 0;
        remb_packet_received = 0;
      },
      record {
        line_pacing_rate = control.pacing_rate;
        packets_sent = d.packet_sent;
        rr_packets = d.rr_packet_received;
        remb_packets = d.remb_packet_received;
      }
          ∷ [],
    )
    else (d, [])

-- The counts of the `switch` of `OnPacketReceived`.
unfoldable pub count_report : PacketType → SenderDebuger → SenderDebuger
count_report rr_type d = record d { rr_packet_received = (d.rr_packet_received + 1) % 2 ^ 64 }
count_report remb_type d = record d { remb_packet_received = (d.remb_packet_received + 1) % 2 ^ 64 }
count_report data_type d = d
