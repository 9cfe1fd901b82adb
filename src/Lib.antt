-- ===== src/Lib.antt =====
-- GCC-chrome (chrome_gcc) runs Google's congestion control between two programs. The sender
-- (chrome_gcc/src/sender.cc) paces data packets over UDP; the receiver
-- (chrome_gcc/src/receiver.cc) parses them, measures delays and losses, and sends back two kinds
-- of packets: loss reports (RR), made by its loss collection, and bit rates (REMB), made by its
-- delay-based estimator. The sender's controller combines them in the send-side bandwidth
-- estimation, whose target rate paces the packets.
--
-- Which file models what (each with lemmas and tests in the folder of its name):
--   Unit: common/unit_base.h, common/data_rate.h, common/data_size.h, time/timestamp.h,
--     time/time_delta.h: a quantity is its int64_t; sums wrap, the extreme values are infinities.
--     Unit/Rounding has the roundings and conversions, Unit/Frequency common/frequency.h.
--   NetworkTypes: common/network_types.h: the messages.
--   LossCollection: google_cc/receiver_loss_collection.cc: the record ReceiverLossCollection is
--     the object; on_transport_packet_feedback is OnTransportPacketFeedback, and the other
--     functions bear the source's names. A failed assert and an access outside a vector are
--     errors.
--   SendSide: google_cc/send_side_bandwidth_estimation.cc: the record SendSide is the object.
--     Target holds the target rate and its limits, Estimate the loss-based estimate, Events the
--     calls as a data type, Backoff the class RttBasedBackoff.
--   LinkCapacity: google_cc/link_capacity_estimator.cc.
--   Aimd: google_cc/aimd_rate_control.cc: update is Update, which fails where an assert does and
--     where a division is undefined; each case of the switch in ChangeBitrate is a function.
--     Aimd/Machine has the machine of three phases that it implements.
--   InterArrival: google_cc/inter_arrival_delta.cc: compute_deltas is ComputeDeltas, with its
--     output arguments as a record.
--   Packet: packet/*.cc and common/utils.cc: texts are lists of character codes; exceptions and
--     the endless pause are errors.
--   Sender: sender.cc, with OnTransportLossReport and OnRemoteBitrateReport of
--     google_cc/goog_cc_network_control.cc: the record Sender is the object and holds the
--     controller's estimator.
--   Trendline: google_cc/trendline_estimator.cc: Trendline has its state, Trendline/Slope the
--     fitted line, Trendline/Update the updates; an access outside the window of packets is none.
--   Acknowledged: google_cc/bitrate_estimator.cc and
--     google_cc/acknowledged_bitrate_estimator.cc.
--   DelayBased: google_cc/delay_based_bwe.cc: the record DelayBasedBwe is the object.
--     incoming_packet_feedback takes one packet, DelayBased/Update has the estimate and the calls
--     of the rate control.
--   Controller: google_cc/goog_cc_network_control.cc: the record Controller is the object with
--     its four estimators. Controller/Feedback has OnTransportPacketsFeedback, Controller/Network
--     the updates that are returned.
--   Receiver: receiver.cc: on_packet_received is OnPacketReceived; it returns the texts that are
--     sent.
--   BothEnds: both programs together: the texts that the receiver sends come to the sender, in
--     their order.
--   Session: the loops of sender_test.cc and receiver_test.cc: their calls in any order, over a
--     network that loses packets and lets reports overtake each other.
--   Print: the ToString functions of the units: time/timestamp.cc, time/time_delta.cc,
--     common/data_rate.cc, common/data_size.cc and common/frequency.cc.
--   Common: helpers: integers, lists, results; Common/Double is the interface of double
--     arithmetic and Common/Fixed an instance of it, decimals with six digits, at which the tests
--     run.
-- Paths are relative to chrome_gcc/src.
--
-- Bounds: a session has fewer than 10^10 calls of SendPacket, at times of at most 15 digits, so
-- that a number and a time fit their fields. Times are assumed below 2^61 microseconds where a
-- theorem needs sums not to wrap, and packet numbers below 2^63. The printing of a number runs on
-- fuel 20, the digits of a uint64_t; Packet/Number shows that this is enough. The IEEE arithmetic
-- of the compiler is a parameter: theorems over Double hold for any, and those that need more take
-- the laws IsExact of SendSide/Loss or IsRaised of SendSide/Rise, which IEEE arithmetic satisfies
-- and Common/Fixed as well.
--
-- The byte that number_to_fix_len_string writes past its buffer is taken to be free memory. A
-- division that C++ does not define is a fault. Not modelled: sockets, the formatting of the log,
-- the clocks and Chromium's time library, whose times are arguments here; the copies of optional
-- and checked casts; glog; the handlers of the controller that do nothing; and the printing tests.
-- The counters of both ends are in Sender/Debug and Receiver/Debug, apart from the objects that
-- own them.
pub mod BothEnds
pub mod Session
pub mod Common
pub mod Unit
pub mod NetworkTypes
pub mod LossCollection
pub mod SendSide
pub mod Packet
pub mod Print
pub mod InterArrival
pub mod LinkCapacity
pub mod Aimd
pub mod Trendline
pub mod Acknowledged
pub mod DelayBased
pub mod Controller
pub mod Receiver
pub mod Sender
