-- ===== src/LossCollection.antt =====
-- chrome_gcc/src/google_cc/receiver_loss_collection.h and .cc: the receiver's loss reports.
-- The two pointers of the class are never aliased, so a swap of the pointers is a swap of what they
-- point to. A failed `assert` and an access outside a vector are errors.
pub mod Window
pub mod Invariant
pub mod Update
pub mod Stream
pub mod Late
mod Tests
use gcc_chrome.Common.{
  ℕ, zero, suc, ◌+◌, ◌-◌, ◌%◌, ◌^◌, Bool, true, false, Option, none, some, List, [], ◌∷◌, ◌++◌, ltb,
  leb, ◌==◌, not, if◌then◌else◌,
}
use gcc_chrome.Common.Double.{Double}
use gcc_chrome.Common.Int.{ℤ, pos, ltb_ℤ, eqb_ℤ}
use gcc_chrome.Common.Lists.{replicate}
use gcc_chrome.Common.Result.{Result, ok, err, ◌>>=◌, ◌>>◌, guard, or_fail}
use gcc_chrome.Unit.{Timestamp, TimeDelta, add, sub, scale, millis}
use gcc_chrome.NetworkTypes.{PacketResult, TransportLossReport, empty_loss_report}

pub data ReceiveVectorState : Type 0 where
  in_effect wait : ReceiveVectorState

pub record ReceiveVector : Type 0 where
  pub first_received_time : Timestamp
  pub largest_received_time : Timestamp
  pub wait_duration : TimeDelta
  pub first_packet_number : ℕ
  pub largest_packet_number : ℕ
  pub received_vector : List Bool
  pub state : ReceiveVectorState

pub record ReceiverLossCollection : Type 0 where
  pub smooth_rtt : TimeDelta
  pub in_effect_vector : ReceiveVector
  pub wait_vector : ReceiveVector

pub record LossReportUpdate : Type 0 where
  pub report : TransportLossReport
  pub updated : Bool

pub data Fault : Type 0 where
  assertion out_of_bounds : Fault

abbrev pub Outcome : Type 0 → Type 0
Outcome A = Result Fault A

unfoldable pub new_receive_vector : ReceiveVectorState → ReceiveVector
new_receive_vector s = record {
  first_received_time = pos 0;
  largest_received_time = pos 0;
  wait_duration = pos 0;
  first_packet_number = 0;
  largest_packet_number = 0;
  received_vector = [];
  state = s;
}

-- `ReceiveVector::Reset`
unfoldable pub reset : ReceiveVector → ReceiveVector
unfolding new_receive_vector
reset v = new_receive_vector in_effect

unfoldable pub new_collection : ReceiverLossCollection
unfolding new_receive_vector
new_collection = record {
  smooth_rtt = pos 0;
  in_effect_vector = new_receive_vector in_effect;
  wait_vector = new_receive_vector wait;
}

abbrev pub receive_duration : TimeDelta
receive_duration = millis 200

-- `vector[i] = true`
unfoldable pub mark : List Bool → ℕ → Option (List Bool)
mark [] i = none
mark (b ∷ bs) zero = some (true ∷ bs)
mark (b ∷ bs) (suc i) = elim (mark bs i) [ none ↦ none | some cs ↦ some (b ∷ cs) ]

-- A difference of two uint64_t.
unfoldable pub sub_u64 : ℕ → ℕ → ℕ
sub_u64 a b = (a + 2 ^ 64 - b) % 2 ^ 64

unfoldable pub update_wait_vector :
    ReceiverLossCollection → PacketResult → Outcome ReceiverLossCollection
unfolding sub_u64
update_wait_vector s packet = do
  let seq = packet.sent_packet.sequence_number
  guard (ltb seq s.wait_vector.largest_packet_number) assertion
  marked ←
      or_fail (mark s.wait_vector.received_vector (sub_u64 seq s.wait_vector.first_packet_number))
        out_of_bounds
  ok (record s { wait_vector = record s.wait_vector { received_vector = marked } })

-- How many entries of the vector are `true`, and how many are not.
unfoldable pub received_count : List Bool → ℕ
received_count [] = 0
received_count (true ∷ bs) = suc (received_count bs)
received_count (false ∷ bs) = received_count bs

unfoldable pub loss_count : List Bool → ℕ
loss_count [] = 0
loss_count (true ∷ bs) = loss_count bs
loss_count (false ∷ bs) = suc (loss_count bs)

unfoldable pub on_new_report_generated : ReceiverLossCollection → Outcome ReceiverLossCollection
on_new_report_generated s = do
  guard
      (ltb_ℤ s.in_effect_vector.largest_received_time
        (add s.in_effect_vector.first_received_time receive_duration))
      assertion
  ok (record s { wait_vector = reset s.wait_vector })

abbrev pub no_report : LossReportUpdate
no_report = record { report = empty_loss_report; updated = false }

-- The report on a window, made when a packet of time `end_time` arrives.
unfoldable pub report_of : ReceiveVector → Timestamp → LossReportUpdate
report_of w end_time = record {
  report = record empty_loss_report {
    start_time = w.first_received_time;
    end_time = end_time;
    packets_received_delta = received_count w.received_vector;
    packets_lost_delta = loss_count w.received_vector;
  };
  updated = true;
}

-- The time from which on the waiting window is reported.
unfoldable pub report_due : ReceiveVector → Timestamp
report_due w = add (add w.first_received_time receive_duration) w.wait_duration

unfoldable pub maybe_generate_report :
    ReceiverLossCollection → Timestamp → Outcome (ReceiverLossCollection × LossReportUpdate)
maybe_generate_report s end_time =
    let w = s.wait_vector in
    if ltb_ℤ (report_due w) end_time
    then if received_count w.received_vector == 0
      then ok (s, no_report)
      else (on_new_report_generated s >>= λ s'. ok (s', report_of w end_time))
    else ok (s, no_report)

-- The macros MIN and MAX of defs.h.
abbrev macro_min : ℤ → ℤ → ℤ
macro_min x y = if ltb_ℤ x y then x else y

abbrev macro_max : ℤ → ℤ → ℤ
macro_max x y = if ltb_ℤ y x then x else y

unfoldable pub get_wait_duration : TimeDelta → TimeDelta
unfolding sub
get_wait_duration smooth_rtt =
    macro_max (macro_min smooth_rtt (sub receive_duration (millis 10))) (millis 100)

abbrev pub is_empty : List Bool → Bool
is_empty [] = true
is_empty (b ∷ bs) = false

unfoldable pub on_receive_duration_end : ReceiverLossCollection → Outcome ReceiverLossCollection
on_receive_duration_end s = do
  guard (is_empty s.wait_vector.received_vector) assertion
  let swapped = record s.in_effect_vector { wait_duration = get_wait_duration s.smooth_rtt }
  guard (is_empty s.wait_vector.received_vector) assertion
  ok (record {
    smooth_rtt = pos 0;
    in_effect_vector = record s.wait_vector {
      first_packet_number = (swapped.largest_packet_number + 1) % 2 ^ 64;
    };
    wait_vector = swapped;
  })

-- The packet joins the window in effect as its newest.
unfoldable pub push_newest : ReceiveVector → PacketResult → ReceiveVector
push_newest v packet = elim v.received_vector [
  | [] ↦ record v {
    received_vector = true ∷ [];
    first_received_time = packet.receive_time;
    largest_received_time = packet.receive_time;
    first_packet_number = packet.sent_packet.sequence_number;
    largest_packet_number = packet.sent_packet.sequence_number;
  }
  | b ∷ bs ↦ record v {
    received_vector =
        ((b ∷ bs)
          ++ replicate (packet.sent_packet.sequence_number - (v.largest_packet_number + 1)) false)
        ++ true ∷ [];
    largest_packet_number = packet.sent_packet.sequence_number;
    largest_received_time = packet.receive_time;
  }
]

module _ {ℓ} (F : Type ℓ) ⦃fl : Double F⦄ where
  -- kAlpha is 0.125f, and 1 - kAlpha is exact.
  unfoldable pub update_rtt : TimeDelta → PacketResult → TimeDelta
  update_rtt smooth_rtt packet =
      let rtt_sample = sub packet.receive_time packet.sent_packet.send_time in
      if eqb_ℤ smooth_rtt (pos 0)
      then rtt_sample
      else add (scale smooth_rtt (fl.decimal (pos 875) 3))
          (scale rtt_sample (fl.decimal (pos 125) 3))

  -- A packet that is not newer than the newest is marked in the waiting window, as in the source.
  unfoldable pub join_effect_vector :
      ReceiverLossCollection → PacketResult → Outcome ReceiverLossCollection
  join_effect_vector s packet =
      let seq = packet.sent_packet.sequence_number in
      if ltb s.in_effect_vector.largest_packet_number seq
      then ok (record s { in_effect_vector = push_newest s.in_effect_vector packet })
      else (or_fail
            (mark s.wait_vector.received_vector
              (sub_u64 seq s.in_effect_vector.first_packet_number))
            out_of_bounds
          >>= λ marked.
              ok (record s { wait_vector = record s.wait_vector { received_vector = marked } }))

  unfoldable pub update_effect_vector :
      ReceiverLossCollection → PacketResult → Outcome ReceiverLossCollection
  update_effect_vector s packet = do
    guard (leb s.in_effect_vector.first_packet_number packet.sent_packet.sequence_number) assertion
    joined ← join_effect_vector s packet
    let timed = record joined { smooth_rtt = update_rtt joined.smooth_rtt packet }
    if ltb_ℤ (add timed.in_effect_vector.first_received_time receive_duration) packet.receive_time
        then on_receive_duration_end timed
        else ok timed

  unfoldable pub on_transport_packet_feedback :
      ReceiverLossCollection → PacketResult → Outcome (ReceiverLossCollection × LossReportUpdate)
  on_transport_packet_feedback s packet =
      if ltb packet.sent_packet.sequence_number s.in_effect_vector.first_packet_number
      then (update_wait_vector s packet >>= λ s'. maybe_generate_report s' packet.receive_time)
      else (maybe_generate_report s packet.receive_time >>= λ r.
          update_effect_vector r.0 packet >>= λ s'. ok (s', r.1))

  -- The loop over the feedback: the last report that was made, or else the last one returned.
  unfoldable pub feedback_loop :
      ReceiverLossCollection
      → List PacketResult
      → LossReportUpdate
      → LossReportUpdate
      → Outcome (ReceiverLossCollection × LossReportUpdate)
  feedback_loop s [] result report = ok (s, if result.updated then result else report)
  feedback_loop s (packet ∷ packets) result report = on_transport_packet_feedback s packet >>= λ r.
      feedback_loop r.0 packets (if (r.1).updated then r.1 else result) r.1

  unfoldable pub on_transport_packets_feedback :
      ReceiverLossCollection
      → List PacketResult
      → Outcome (ReceiverLossCollection × LossReportUpdate)
  unfolding feedback_loop
  on_transport_packets_feedback s packets = feedback_loop s packets no_report no_report
