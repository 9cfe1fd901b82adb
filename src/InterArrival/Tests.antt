-- ===== src/InterArrival/Tests.antt =====
-- The groups of packets on concrete arrivals.
use gcc_chrome.Common.{◌≡◌, ◌<◌, ℕ, refl, true, List, [], ◌∷◌, arith}
use gcc_chrome.Common.Int.{pos, ◌-ℤ◌, ◌≤ℤ◌, ◌<ℤ◌}
use gcc_chrome.Common.Lists.{All}
use gcc_chrome.Unit.{sub, millis, is_finite, is_infinite, is_zero}
use gcc_chrome.InterArrival.{
  SendTimeGroup, InterArrivalDelta, Packet, compute_deltas, compare_groups, start_group, accumulate,
  join_group, first_packet, reset, is_first_packet, new_timestamp_group, belongs_to_burst,
  arrival_time_offset_threshold,
}
use gcc_chrome.InterArrival.Group.{IsPacket, IsOpen, IsWell, double, compute_deltas-IsWell}
use gcc_chrome.InterArrival.Sum.{
  no_deltas, run, totals, NoReset, totals-telescope, compute_deltas-computed,
}

abbrev packet : ℕ → ℕ → Packet
packet sent arrival = record {
  sent = millis sent;
  arrival = millis arrival;
  system_time = millis arrival;
  packet_size = 1472;
}

abbrev group : ℕ → ℕ → SendTimeGroup
group sent arrival = record {
  size = 1472;
  first_send_time = millis sent;
  send_time = millis sent;
  first_arrival = millis arrival;
  complete_time = millis arrival;
  last_system_time = millis arrival;
}

-- Groups of 5 milliseconds: one from 100 ms, and one from 120 ms.
abbrev two_groups : InterArrivalDelta
two_groups = record {
  send_time_group_length = millis 5;
  current = group 120 170;
  prev = group 100 150;
  num_consecutive_reordered_packets = 0;
}

group-IsOpen : (sent arrival : ℕ) → sent < 1000 → arrival < 1000 → IsOpen (group sent arrival)
group-IsOpen sent arrival h h' = record {
  first = omega arith;
  last = omega arith;
  arrival = omega arith;
  complete = omega arith;
  system = omega arith;
  order = omega arith;
}

two_groups-IsWell : IsWell two_groups
two_groups-IsWell = record {
  length = omega arith;
  few = omega arith;
  phase =
      double (group-IsOpen 120 170 (omega arith) (omega arith))
        (group-IsOpen 100 150 (omega arith) (omega arith)) (omega arith);
}

packet-IsPacket : (sent arrival : ℕ) → sent < 1000 → arrival < 1000 → IsPacket (packet sent arrival)
packet-IsPacket sent arrival h h' = record {
  sent_time = omega arith;
  arrival_time = omega arith;
  system_time = omega arith;
}

-- A packet of the current group, one that was overtaken, and one of the next group.
abbrev packets : List Packet
packets = packet 122 175 ∷ packet 110 176 ∷ packet 140 195 ∷ []

packets-IsPacket : All IsPacket packets
packets-IsPacket = (
  packet-IsPacket 122 175 (omega arith) (omega arith),
  (
    packet-IsPacket 110 176 (omega arith) (omega arith),
    (packet-IsPacket 140 195 (omega arith) (omega arith), tt),
  ),
)

finite_prev : is_finite two_groups.prev.complete_time ≡ true
unfolding is_finite
finite_prev = refl

packets-NoReset : NoReset two_groups packets
unfolding compute_deltas compare_groups start_group accumulate join_group first_packet reset
    is_first_packet new_timestamp_group belongs_to_burst is_finite is_infinite is_zero sub
packets-NoReset = (refl, (refl, (refl, tt)))

totals-telescope_example :
    ((totals two_groups packets).0
      ≡ (run two_groups packets).prev.send_time -ℤ two_groups.prev.send_time)
    × ((totals two_groups packets).1
        ≡ (run two_groups packets).prev.complete_time -ℤ two_groups.prev.complete_time)
totals-telescope_example =
    totals-telescope two_groups packets two_groups-IsWell finite_prev packets-IsPacket
      packets-NoReset

compute_deltas-IsWell_example : IsWell (compute_deltas two_groups (packet 140 195) no_deltas).next
compute_deltas-IsWell_example =
    compute_deltas-IsWell two_groups (packet 140 195) no_deltas two_groups-IsWell
      (packet-IsPacket 140 195 (omega arith) (omega arith))

computed_now : (compute_deltas two_groups (packet 140 195) no_deltas).computed ≡ true
unfolding compute_deltas compare_groups start_group accumulate join_group first_packet reset
    is_first_packet new_timestamp_group belongs_to_burst is_finite is_infinite is_zero sub
computed_now = refl

compute_deltas-computed_example :
    let r = compute_deltas two_groups (packet 140 195) no_deltas in
    (pos 0 ≤ℤ r.deltas.arrival_time_delta)
    × (sub r.deltas.arrival_time_delta
          (sub two_groups.current.last_system_time two_groups.prev.last_system_time)
        <ℤ arrival_time_offset_threshold)
    × (r.next.prev ≡ two_groups.current)
    × (r.next.current.first_send_time ≡ millis 140)
    × (r.next.current.size ≡ 1472)
compute_deltas-computed_example =
    compute_deltas-computed two_groups (packet 140 195) no_deltas two_groups-IsWell finite_prev
      computed_now
