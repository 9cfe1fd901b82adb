-- ===== src/InterArrival.antt =====
-- chrome_gcc/src/google_cc/inter_arrival_delta.h and .cc: packets in groups by send time, and the
-- differences between one group and the next. Sizes are natural numbers.
pub mod Group
pub mod Sum
mod Tests
use gcc_chrome.Common.{ℕ, ◌+◌, Bool, true, false, ◌&&◌, leb, if◌then◌else◌}
use gcc_chrome.Common.Int.{ℤ, pos, ◌-ℤ◌, int32, ltb_ℤ, leb_ℤ, max_ℤ}
use gcc_chrome.Unit.{
  Timestamp, TimeDelta, minus_infinity, is_zero, is_infinite, is_finite, sub, millis, seconds,
}

pub record SendTimeGroup : Type 0 where
  pub size : ℕ
  pub first_send_time : Timestamp
  pub send_time : Timestamp
  pub first_arrival : Timestamp
  pub complete_time : Timestamp
  pub last_system_time : Timestamp

abbrev pub new_group : SendTimeGroup
new_group = record {
  size = 0;
  first_send_time = minus_infinity;
  send_time = minus_infinity;
  first_arrival = minus_infinity;
  complete_time = minus_infinity;
  last_system_time = minus_infinity;
}

pub record InterArrivalDelta : Type 0 where
  pub send_time_group_length : TimeDelta
  pub current : SendTimeGroup
  pub prev : SendTimeGroup
  pub num_consecutive_reordered_packets : ℕ

-- The arguments of `ComputeDeltas` that are read, and those that are written.
pub record Packet : Type 0 where
  pub sent : Timestamp
  pub arrival : Timestamp
  pub system_time : Timestamp
  pub packet_size : ℕ

pub record Deltas : Type 0 where
  pub send_time_delta : TimeDelta
  pub arrival_time_delta : TimeDelta
  pub packet_size_delta : ℤ

-- The object, the output arguments and the returned value after `ComputeDeltas`.
pub record Outcome : Type 0 where
  pub next : InterArrivalDelta
  pub deltas : Deltas
  pub computed : Bool

abbrev pub burst_delta_threshold : TimeDelta
burst_delta_threshold = millis 5

abbrev pub max_burst_duration : TimeDelta
max_burst_duration = millis 100

abbrev pub arrival_time_offset_threshold : TimeDelta
arrival_time_offset_threshold = seconds 3

abbrev pub reordered_reset_threshold : ℕ
reordered_reset_threshold = 3

unfoldable pub new_inter_arrival_delta : TimeDelta → InterArrivalDelta
new_inter_arrival_delta length = record {
  send_time_group_length = length;
  current = new_group;
  prev = new_group;
  num_consecutive_reordered_packets = 0;
}

unfoldable pub is_first_packet : SendTimeGroup → Bool
is_first_packet g = is_infinite g.complete_time

unfoldable pub belongs_to_burst : InterArrivalDelta → Timestamp → Timestamp → Bool
belongs_to_burst s arrival_time sent =
    let arrival_time_delta = sub arrival_time s.current.complete_time in
    let send_time_delta = sub sent s.current.send_time in
    if is_zero send_time_delta
    then true
    else ltb_ℤ (sub arrival_time_delta send_time_delta) (pos 0)
      && leb_ℤ arrival_time_delta burst_delta_threshold
      && ltb_ℤ (sub arrival_time s.current.first_arrival) max_burst_duration

unfoldable pub new_timestamp_group : InterArrivalDelta → Timestamp → Timestamp → Bool
new_timestamp_group s arrival_time sent =
    if is_first_packet s.current
    then false
    else if belongs_to_burst s arrival_time sent
    then false
    else ltb_ℤ s.send_time_group_length (sub sent s.current.first_send_time)

unfoldable pub reset : InterArrivalDelta → InterArrivalDelta
reset s = record s { num_consecutive_reordered_packets = 0; current = new_group; prev = new_group }

-- The end of `ComputeDeltas`: the packet joins the current group.
unfoldable pub accumulate : InterArrivalDelta → Packet → InterArrivalDelta
accumulate s p = record s {
  current = record s.current {
    size = s.current.size + p.packet_size;
    complete_time = p.arrival;
    last_system_time = p.system_time;
  };
}

-- The current group becomes the previous one, and the packet opens the next.
unfoldable pub start_group : InterArrivalDelta → Packet → InterArrivalDelta
start_group s p =
    accumulate
      (record s {
        prev = s.current;
        current = record s.current {
          first_send_time = p.sent;
          send_time = p.sent;
          first_arrival = p.arrival;
          size = 0;
        };
      })
      p

-- The first packet of a later group, when there are two groups to compare.
unfoldable pub compare_groups : InterArrivalDelta → Packet → Deltas → Outcome
compare_groups s p out =
    let send_delta = sub s.current.send_time s.prev.send_time in
    let arrival_delta = sub s.current.complete_time s.prev.complete_time in
    let system_delta = sub s.current.last_system_time s.prev.last_system_time in
    let timed = record out { send_time_delta = send_delta; arrival_time_delta = arrival_delta } in
    let reordered = s.num_consecutive_reordered_packets + 1 in
    if leb_ℤ arrival_time_offset_threshold (sub arrival_delta system_delta)
    then record { next = reset s; deltas = timed; computed = false }
    else if ltb_ℤ arrival_delta (pos 0)
    then record {
      next =
          if leb reordered_reset_threshold reordered
          then reset s
          else record s { num_consecutive_reordered_packets = reordered };
      deltas = timed;
      computed = false;
    }
    else record {
      next = start_group (record s { num_consecutive_reordered_packets = 0 }) p;
      deltas = record timed {
        packet_size_delta = int32 (int32 (pos s.current.size) -ℤ int32 (pos s.prev.size));
      };
      computed = true;
    }

-- The first packet of all.
unfoldable pub first_packet : InterArrivalDelta → Packet → InterArrivalDelta
first_packet s p =
    accumulate
      (record s {
        current = record s.current {
          send_time = p.sent;
          first_send_time = p.sent;
          first_arrival = p.arrival;
        };
      })
      p

-- A packet of the current group.
unfoldable pub join_group : InterArrivalDelta → Packet → InterArrivalDelta
join_group s p =
    accumulate
      (record s { current = record s.current { send_time = max_ℤ s.current.send_time p.sent } }) p

-- `out` holds what the output arguments held, and then hold; the Boolean is the value returned.
unfoldable pub compute_deltas : InterArrivalDelta → Packet → Deltas → Outcome
compute_deltas s p out =
    if is_first_packet s.current
    then record { next = first_packet s p; deltas = out; computed = false }
    else if ltb_ℤ p.sent s.current.first_send_time
    then record { next = s; deltas = out; computed = false }
    else if new_timestamp_group s p.arrival p.sent
    then (if is_finite s.prev.complete_time
        then compare_groups s p out
        else record { next = start_group s p; deltas = out; computed = false })
    else record { next = join_group s p; deltas = out; computed = false }
