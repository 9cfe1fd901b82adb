-- ===== src/NetworkTypes.antt =====
-- chrome_gcc/src/common/network_types.h and .cc: the messages that the two ends exchange with their
-- controllers. Only fields that the code reads or writes are kept.
pub mod Sorted
mod Tests
use gcc_chrome.Common.{ℕ, Bool, not, List, [], ◌∷◌, ltb, if◌then◌else◌}
use gcc_chrome.Common.Int.{ltb_ℤ, eqb_ℤ}
use gcc_chrome.Unit.{Timestamp, TimeDelta, DataRate, DataSize, plus_infinity, is_plus_infinity}

-- A sequence number comes from an unsigned number of a packet and is never negative.
pub record SentPacket : Type 0 where
  pub send_time : Timestamp
  pub size : DataSize
  pub prior_unacked_data : DataSize
  pub audio : Bool
  pub sequence_number : ℕ

pub record PacketResult : Type 0 where
  pub sent_packet : SentPacket
  pub receive_time : Timestamp

unfoldable pub is_received : PacketResult → Bool
unfolding is_plus_infinity
is_received p = not (is_plus_infinity p.receive_time)

pub record TransportLossReport : Type 0 where
  pub receive_time : Timestamp
  pub start_time : Timestamp
  pub end_time : Timestamp
  pub packets_lost_delta : ℕ
  pub packets_received_delta : ℕ

abbrev pub empty_loss_report : TransportLossReport
empty_loss_report = record {
  receive_time = plus_infinity;
  start_time = plus_infinity;
  end_time = plus_infinity;
  packets_lost_delta = 0;
  packets_received_delta = 0;
}

-- An estimate of the link's capacity that the network may give.
pub record NetworkStateEstimate {ℓ} (F : Type ℓ) : Type ℓ where
  pub confidence : F
  pub update_time : Timestamp
  pub last_receive_time : Timestamp
  pub last_send_time : Timestamp
  pub link_capacity : DataRate
  pub link_capacity_lower : DataRate
  pub link_capacity_upper : DataRate
  pub pre_link_buffer_delay : TimeDelta
  pub post_link_buffer_delay : TimeDelta
  pub propagation_delay : TimeDelta
  pub time_delta : TimeDelta
  pub last_feed_time : Timestamp
  pub cross_delay_rate : F
  pub spike_delay_rate : F
  pub link_capacity_std_dev : DataRate
  pub link_capacity_min : DataRate
  pub cross_traffic_ratio : F

-- The loop of `ReceivedWithSendInfo`.
unfoldable pub received_with_send_info : List PacketResult → List PacketResult
unfolding is_received
received_with_send_info [] = []
received_with_send_info (p ∷ ps) =
    if is_received p then p ∷ received_with_send_info ps else received_with_send_info ps

-- The loop of `LostWithSendInfo`.
unfoldable pub lost_with_send_info : List PacketResult → List PacketResult
unfolding is_received
lost_with_send_info [] = []
lost_with_send_info (p ∷ ps) =
    let rest = lost_with_send_info ps in if not (is_received p) then p ∷ rest else rest

-- `ReceiveTimeOrder`
unfoldable pub receive_time_order : PacketResult → PacketResult → Bool
receive_time_order a b =
    if not (eqb_ℤ a.receive_time b.receive_time)
    then ltb_ℤ a.receive_time b.receive_time
    else if not (eqb_ℤ a.sent_packet.send_time b.sent_packet.send_time)
    then ltb_ℤ a.sent_packet.send_time b.sent_packet.send_time
    else ltb a.sent_packet.sequence_number b.sent_packet.sequence_number

-- The fields of `TransportPacketsFeedback` that are read.
pub record TransportPacketsFeedback : Type 0 where
  pub feedback_time : Timestamp
  pub packet_feedbacks : List PacketResult

-- `std::sort` by that order. Packets that the order does not tell apart stay as they stand.
unfoldable pub insert_packet : PacketResult → List PacketResult → List PacketResult
unfolding receive_time_order
insert_packet p [] = p ∷ []
insert_packet p (q ∷ qs) =
    let rest = insert_packet p qs in if receive_time_order q p then q ∷ rest else p ∷ q ∷ qs

unfoldable pub sort_packets : List PacketResult → List PacketResult
unfolding insert_packet
sort_packets [] = []
sort_packets (p ∷ ps) = insert_packet p (sort_packets ps)

unfoldable pub sorted_by_receive_time : TransportPacketsFeedback → List PacketResult
unfolding received_with_send_info sort_packets
sorted_by_receive_time msg = sort_packets (received_with_send_info msg.packet_feedbacks)
