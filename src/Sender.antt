-- ===== src/Sender.antt =====
-- chrome_gcc/src/sender.h and sender.cc, with the controller's OnTransportLossReport,
-- OnRemoteBitrateReport and GetSenderSideDataRate of google_cc/goog_cc_network_control.cc. The times
-- that the clock shows are arguments, one for each call of `Now`; sockets and logs are left out;
-- Debug has the counters.
pub mod Debug
pub mod Pacing
pub mod Reports
pub mod Told
mod Tests
use gcc_chrome.Common.{
  ℕ, ◌+◌, ◌*◌, ◌%◌, ◌^◌, Bool, true, false, List, [], ◌∷◌, Option, none, some, ltb, if◌then◌else◌,
}
use gcc_chrome.Common.Double.{Double}
use gcc_chrome.Common.Int.{ℤ, pos, ◌+ℤ◌, int64, to_u64, ltb_ℤ}
use gcc_chrome.Common.Result.{Result, ok, err, ◌>>=◌}
use gcc_chrome.Unit.{Timestamp}
use gcc_chrome.Controller.{Config}
use gcc_chrome.SendSide.{SendSide, new_send_side, initial_pacing_rate}
use gcc_chrome.SendSide.Target.{target_rate, update_receiver_estimate}
use gcc_chrome.SendSide.Estimate.{update_packets_lost}
use gcc_chrome.Packet.{
  Text, PacketType, data_type, rr_type, remb_type, ParseError, RrPacket, RembPacket, new_rr_packet,
  new_remb_packet, default_packet_size, get_type, un_serialize_rr, un_serialize_remb,
  make_data_packet, serialize_data,
}

abbrev pub min_pacing_rate : ℕ
min_pacing_rate = 100_000

abbrev pub one_second : ℕ
one_second = 1_000_000

pub record Sender {ℓ} (F : Type ℓ) : Type ℓ where
  pub bandwidth_estimation : SendSide F
  pub packet_feedback_only : Bool
  pub recent_packet_number : ℕ
  pub recent_rr_packet : RrPacket
  pub pacing_rate : ℕ
  pub next_send_timestamp : ℤ

module _ {ℓ} {F : Type ℓ} ⦃fl : Double F⦄ where
  -- The object that the constructor makes for a configuration with a starting rate.
  unfoldable pub started_sender : Sender F
  started_sender = record {
    bandwidth_estimation = new_send_side;
    packet_feedback_only = false;
    recent_packet_number = 0;
    recent_rr_packet = new_rr_packet;
    pacing_rate = initial_pacing_rate;
    next_send_timestamp = pos 0;
  }

  -- The constructor; `none` is the controller's use of a starting rate that is not given.
  unfoldable pub new_sender : Config F → Option (Sender F)
  new_sender config = elim config.constraints.starting_rate [
    | none ↦ none
    | some rate ↦ some started_sender
  ]

  unfoldable pub on_transport_loss_report : Sender F → RrPacket → Timestamp → Sender F
  on_transport_loss_report s report receive_time = if s.packet_feedback_only then s else record s {
    bandwidth_estimation =
        update_packets_lost s.bandwidth_estimation report.packets_lost_delta
          ((report.packets_received_delta + report.packets_lost_delta) % 2 ^ 64) receive_time;
  }

  unfoldable pub on_remote_bitrate_report : Sender F → RembPacket → Timestamp → Sender F
  on_remote_bitrate_report s report receive_time = if s.packet_feedback_only then s else record s {
    bandwidth_estimation =
        update_receiver_estimate s.bandwidth_estimation receive_time report.bandwidth;
  }

  unfoldable pub on_rr_packet_received : Sender F → Text → Timestamp → Result ParseError (Sender F)
  on_rr_packet_received s buffer now = do
    packet ← un_serialize_rr buffer new_rr_packet
    ok (on_transport_loss_report (record s { recent_rr_packet = packet }) packet now)

  unfoldable pub on_remb_packet_received :
      Sender F → Text → Timestamp → Result ParseError (Sender F)
  on_remb_packet_received s buffer now = do
    packet ← un_serialize_remb buffer new_remb_packet
    ok (on_remote_bitrate_report s packet now)

  -- The end of `OnPacketReceived`.
  unfoldable pub set_pacing_rate : Sender F → Sender F
  set_pacing_rate s =
      let rate = to_u64 (target_rate s.bandwidth_estimation) in
      record s { pacing_rate = if ltb rate min_pacing_rate then min_pacing_rate else rate }

  unfoldable pub on_packet_of_type :
      PacketType → Sender F → Text → Timestamp → Result ParseError (Sender F)
  on_packet_of_type rr_type s buffer now = on_rr_packet_received s buffer now
  on_packet_of_type remb_type s buffer now = on_remb_packet_received s buffer now
  on_packet_of_type data_type s buffer now = ok s

  unfoldable pub on_packet_received : Sender F → Text → Timestamp → Result ParseError (Sender F)
  on_packet_received s buffer now = do
    type ← get_type buffer
    handled ← on_packet_of_type type s buffer now
    ok (set_pacing_rate handled)

  -- `ReceivePacket`, with the number of bytes that `recvfrom` returns, 0 where it has none or fails,
  -- and the text in the buffer, up to its first NUL.
  unfoldable pub receive_packet : Sender F → ℕ → Text → Timestamp → Result ParseError (Sender F)
  receive_packet s num buffer now = if ltb 0 num then on_packet_received s buffer now else ok s

module _ {ℓ} (F : Type ℓ) ⦃fl : Double F⦄ where
  -- The quotient is a double, converted to uint64_t. A pacing rate of 0 pauses the program for good:
  -- the constructor sets a positive one, and so does `set_pacing_rate`.
  unfoldable pub set_next_send_time : Sender F → Timestamp → Result ParseError (Sender F)
  set_next_send_time s now =
      if ltb 0 s.pacing_rate
      then ok (record s {
        next_send_timestamp = int64 (
            now
            +ℤ fl.to_int (
                fl.div (fl.of_int (pos (default_packet_size * 8 * one_second)))
                  (fl.of_int (pos s.pacing_rate))));
      })
      else err gcc_chrome.Packet.paused

  unfoldable pub is_time_to_send_next_packet :
      Sender F → Timestamp → Timestamp → Result ParseError (Sender F × Bool)
  is_time_to_send_next_packet s now then_now =
      if ltb_ℤ s.next_send_timestamp now
      then (set_next_send_time s then_now >>= λ r. ok (r, true))
      else ok (s, false)

  -- The text that is sent.
  unfoldable pub make_packet_and_send : Sender F → Timestamp → Sender F × Text
  make_packet_and_send s now =
      let (packet, number) = make_data_packet s.recent_packet_number in
      (
        record s { recent_packet_number = number },
        serialize_data (record packet { send_time = now }),
      )

  -- `SendPacket`, with the texts that are sent.
  unfoldable pub send_packet :
      Sender F → Timestamp → Timestamp → Timestamp → Result ParseError (Sender F × List Text)
  send_packet s now then_now make_now = do
    ready ← is_time_to_send_next_packet s now then_now
    let (next, text) = make_packet_and_send ready.0 make_now
    if ready.1 then ok (next, text ∷ []) else ok (ready.0, [])
