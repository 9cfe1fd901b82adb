-- ===== src/Receiver.antt =====
-- chrome_gcc/src/receiver.h and receiver.cc: the receiver answers the data packets with loss reports and
-- with the bit rate of its delay-based estimator. The times that the clock shows are arguments, one for
-- each call of `Now`; the texts that are sent are returned. Sockets and logs are left out; Debug has the
-- counter of packets. A packet that does not say so is no audio packet.
pub mod Debug
pub mod Messages
pub mod Reports
mod Tests
use gcc_chrome.Common.{
  ℕ, Bool, true, false, Option, none, some, List, [], ◌∷◌, ◌++◌, ◌==◌, not, if◌then◌else◌,
}
use gcc_chrome.Common.Double.{Double}
use gcc_chrome.Common.Int.{pos, to_u64, eqb_ℤ}
use gcc_chrome.Common.Result.{Result, ok, err, ◌>>=◌, or_fail}
use gcc_chrome.Unit.{Timestamp, DataRate, is_zero}
use gcc_chrome.NetworkTypes.{PacketResult, TransportPacketsFeedback, TransportLossReport}
use gcc_chrome.Packet.{
  Text, PacketType, data_type, rr_type, remb_type, ParseError, DataPacket, new_data_packet,
  get_type, un_serialize_data, serialize_rr, serialize_remb,
}
use gcc_chrome.LossCollection
use gcc_chrome.LossCollection.{ReceiverLossCollection, LossReportUpdate, new_collection}
use gcc_chrome.Acknowledged.{acknowledged_bitrate}
use gcc_chrome.DelayBased
use gcc_chrome.Controller.{Controller, Config, new_controller}
use gcc_chrome.Controller.Feedback.{on_transport_packets_feedback}

pub record Receiver {ℓ} (F : Type ℓ) : Type ℓ where
  pub gcc_controler : Controller F
  pub loss_collection : ReceiverLossCollection
  pub last_remb_rate : DataRate
  pub last_ack_rate : ℕ

-- What ends the program: an exception of the parser, and a fault of one of the two estimators.
pub data Fault : Type 0 where
  unreadable : ParseError → Fault
  collection : LossCollection.Fault → Fault
  estimator : Fault

abbrev pub unreadable_or {ℓ} : {A : Type ℓ} → Result ParseError A → Result Fault A
unreadable_or (ok a) = ok a
unreadable_or (err e) = err (unreadable e)

abbrev pub collection_or {ℓ} : {A : Type ℓ} → Result LossCollection.Fault A → Result Fault A
collection_or (ok a) = ok a
collection_or (err e) = err (collection e)

-- The message about one data packet, at the times of the two calls of `Now`.
abbrev pub packet_result : DataPacket → Timestamp → PacketResult
packet_result packet receive_time = record {
  sent_packet = record {
    send_time = packet.send_time;
    size = pos packet.size;
    prior_unacked_data = pos 0;
    audio = false;
    sequence_number = packet.sequence_number;
  };
  receive_time = receive_time;
}

unfoldable pub message : DataPacket → Timestamp → Timestamp → TransportPacketsFeedback
message packet feedback_time receive_time = record {
  feedback_time = feedback_time;
  packet_feedbacks = packet_result packet receive_time ∷ [];
}

-- The text that `OnLossReportGenerated` sends.
unfoldable pub on_loss_report_generated : TransportLossReport → Text
on_loss_report_generated report = serialize_rr (record {
  start_time = report.start_time;
  end_time = report.end_time;
  packets_lost_delta = report.packets_lost_delta;
  packets_received_delta = report.packets_received_delta;
})

unfoldable pub loss_texts : LossReportUpdate → List Text
loss_texts result = if result.updated then on_loss_report_generated result.report ∷ [] else []

module _ {ℓ} {F : Type ℓ} where
  -- A rate is sent when it is the first, or not the one that was sent last.
  unfoldable pub on_delay_base_bwe_updated : Receiver F → DelayBased.Result → Receiver F × List Text
  on_delay_base_bwe_updated s report =
      let told : Receiver F × List Text = (
        record s { last_remb_rate = report.target_bitrate },
        serialize_remb (record { bandwidth = report.target_bitrate }) ∷ [],
      ) in
      if is_zero s.last_remb_rate
      then told
      else if not (eqb_ℤ s.last_remb_rate report.target_bitrate)
      then told
      else (s, [])

  unfoldable pub tell_delay : Receiver F → Receiver F × List Text
  tell_delay s =
      let result = s.gcc_controler.recent_result in
      if result.updated then on_delay_base_bwe_updated s result else (s, [])

  abbrev pub remember_ack : Receiver F → Option DataRate → Receiver F
  remember_ack s rate = record s {
    last_ack_rate = elim rate [ none ↦ s.last_ack_rate | some r ↦ to_u64 r ];
  }

module _ {ℓ} {F : Type ℓ} ⦃fl : Double F⦄ where
  -- The constructor; `none` is the use of a starting rate that is not given.
  unfoldable pub new_receiver : Config F → Bool → Bool → Option (Receiver F)
  new_receiver config has_predictor in_alr = elim (new_controller config has_predictor in_alr) [
    | none ↦ none
    | some controller ↦ some (record {
      gcc_controler = controller;
      loss_collection = new_collection;
      last_remb_rate = pos 0;
      last_ack_rate = 0;
    })
  ]

  -- `OnDataPacketReceived` once the packet is read.
  unfoldable pub on_message :
      Receiver F → TransportPacketsFeedback → Result Fault (Receiver F × List Text)
  on_message s msg = do
    controller ← or_fail (on_transport_packets_feedback s.gcc_controler msg) estimator
    let (told, texts) = tell_delay (record s { gcc_controler = controller })
    let acked = remember_ack told (acknowledged_bitrate controller.acknowledged)
    loss ←
        collection_or (
          LossCollection.on_transport_packets_feedback F acked.loss_collection msg.packet_feedbacks)
    ok (record acked { loss_collection = loss.0 }, texts ++ loss_texts loss.1)

  unfoldable pub on_data_packet_received :
      Receiver F → Text → Timestamp → Timestamp → Result Fault (Receiver F × List Text)
  on_data_packet_received s buffer feedback_time receive_time = do
    packet ← unreadable_or (un_serialize_data buffer new_data_packet)
    on_message s (message packet feedback_time receive_time)

  unfoldable pub on_packet_of_type :
      PacketType → Receiver F → Text → Timestamp → Timestamp → Result Fault (Receiver F × List Text)
  on_packet_of_type data_type s buffer feedback_time receive_time =
      on_data_packet_received s buffer feedback_time receive_time
  on_packet_of_type rr_type s buffer feedback_time receive_time = ok (s, [])
  on_packet_of_type remb_type s buffer feedback_time receive_time = ok (s, [])

  unfoldable pub on_packet_received :
      Receiver F → Text → Timestamp → Timestamp → Result Fault (Receiver F × List Text)
  on_packet_received s buffer feedback_time receive_time = do
    type ← unreadable_or (get_type buffer)
    on_packet_of_type type s buffer feedback_time receive_time

  -- `ReceivePacket`, with the text that came, up to its first NUL; an empty datagram counts as one.
  unfoldable pub receive_packet :
      Receiver F → Option Text → Timestamp → Timestamp → Result Fault (Receiver F × List Text)
  receive_packet s none feedback_time receive_time = ok (s, [])
  receive_packet s (some t) feedback_time receive_time =
      on_packet_received s t feedback_time receive_time
