-- ===== src/InterArrival/Group.antt =====
-- The groups of packets are apart, and their deltas add up.
use gcc_chrome.Common.{◌⊎◌, inl, inr, ℕ, ◌+◌, ◌<◌, ◌≡◌, refl, ◌∙◌, true, false, arith}
use gcc_chrome.Common.Int.{ℤ, ◌≤ℤ◌, pos_part}
use gcc_chrome.Unit.{
  Timestamp, minus_infinity, is_infinite, is_finite, is_plus_infinity, is_minus_infinity,
}
use gcc_chrome.Unit.Exact.{IsTime, sub-parts}
use gcc_chrome.InterArrival.{
  SendTimeGroup, InterArrivalDelta, Packet, Deltas, is_first_packet, new_timestamp_group,
  belongs_to_burst, reset, accumulate, start_group, first_packet, join_group, compare_groups,
  compute_deltas,
}

pub record IsPacket (p : Packet) : Type 0 where
  pub sent_time : IsTime p.sent
  pub arrival_time : IsTime p.arrival
  pub system_time : IsTime p.system_time

pub record IsOpen (g : SendTimeGroup) : Type 0 where
  pub first : IsTime g.first_send_time
  pub last : IsTime g.send_time
  pub arrival : IsTime g.first_arrival
  pub complete : IsTime g.complete_time
  pub system : IsTime g.last_system_time
  pub order : g.first_send_time ≤ℤ g.send_time

abbrev pub IsEmpty : SendTimeGroup → Type 0
IsEmpty g = g.complete_time ≡ minus_infinity

-- No packet yet, one group, or two groups whose first packets were sent more than the group length
-- apart.
pub data Phase (s : InterArrivalDelta) : Type 0 where
  fresh : IsEmpty s.current → IsEmpty s.prev → Phase s
  single : IsOpen s.current → IsEmpty s.prev → Phase s
  double :
      IsOpen s.current
      → IsOpen s.prev
      → pos_part s.prev.first_send_time + pos_part s.send_time_group_length
        < pos_part s.current.first_send_time
      → Phase s

pub record IsWell (s : InterArrivalDelta) : Type 0 where
  pub length : IsTime s.send_time_group_length
  pub few : s.num_consecutive_reordered_packets < 3
  pub phase : Phase s

time-finite : (t : ℤ) → IsTime t → is_infinite t ≡ false
unfolding is_infinite
time-finite t h = ground arith

empty-infinite : (g : SendTimeGroup) → IsEmpty g → is_first_packet g ≡ true
unfolding is_first_packet is_infinite is_plus_infinity is_minus_infinity
empty-infinite g h = ground arith

first_packet-IsWell :
    (s : InterArrivalDelta) (p : Packet)
    → IsWell s
    → IsEmpty s.prev
    → IsPacket p
    → IsWell (first_packet s p)
unfolding first_packet accumulate
first_packet-IsWell s p h e v = record {
  length = h.length;
  few = h.few;
  phase =
      single
        (record {
          first = v.sent_time;
          last = v.sent_time;
          arrival = v.arrival_time;
          complete = v.arrival_time;
          system = v.system_time;
          order = omega arith;
        })
        e;
}

join_group-IsOpen :
    (s : InterArrivalDelta) (p : Packet)
    → IsOpen s.current
    → IsPacket p
    → IsOpen (join_group s p).current
unfolding join_group accumulate
join_group-IsOpen s p h v = record {
  first = h.first;
  last = ground (arith, h.last, v.sent_time);
  arrival = h.arrival;
  complete = v.arrival_time;
  system = v.system_time;
  order = ground (arith, h.order);
}

join_group-IsWell :
    (s : InterArrivalDelta) (p : Packet)
    → IsWell s
    → IsOpen s.current
    → IsPacket p
    → IsWell (join_group s p)
unfolding join_group accumulate
join_group-IsWell s p h o v = record {
  length = h.length;
  few = h.few;
  phase = elim h.phase [
    | fresh _ e ↦ single (join_group-IsOpen s p o v) e
    | single _ e ↦ single (join_group-IsOpen s p o v) e
    | double _ q d ↦ double (join_group-IsOpen s p o v) q d
  ];
}

start_group-IsWell :
    (s : InterArrivalDelta) (p : Packet)
    → IsWell s
    → IsOpen s.current
    → IsPacket p
    → new_timestamp_group s p.arrival p.sent ≡ true
    → IsWell (start_group s p)
unfolding start_group accumulate new_timestamp_group
start_group-IsWell s p h o v new = record {
  length = h.length;
  few = h.few;
  phase =
      double
        (record {
          first = v.sent_time;
          last = v.sent_time;
          arrival = v.arrival_time;
          complete = v.arrival_time;
          system = v.system_time;
          order = omega arith;
        })
        o
        (ground (
          arith,
          h.length,
          o.first,
          v.sent_time,
          sub-parts p.sent s.current.first_send_time v.sent_time o.first,
        ));
}

reset-IsWell : (s : InterArrivalDelta) → IsWell s → IsWell (reset s)
unfolding reset
reset-IsWell s h = record { length = h.length; few = omega arith; phase = fresh refl refl }

recount-IsWell :
    (s : InterArrivalDelta) (n : ℕ)
    → IsWell s
    → n < 3
    → IsWell (record s { num_consecutive_reordered_packets = n })
recount-IsWell s n h few =
    let same : Phase s → Phase (record s { num_consecutive_reordered_packets = n }) = λ f. elim f [
      | fresh a b ↦ fresh a b
      | single a b ↦ single a b
      | double a b c ↦ double a b c
    ] in
    record { length = h.length; few = few; phase = same h.phase }

recount-group :
    (s : InterArrivalDelta) (n : ℕ) (t sent : Timestamp)
    → new_timestamp_group (record s { num_consecutive_reordered_packets = n }) t sent
      ≡ new_timestamp_group s t sent
unfolding new_timestamp_group belongs_to_burst
recount-group s n t sent = refl

-- What `ComputeDeltas` makes of the object, when there are two groups to compare.
pub compare_groups-cases :
    (s : InterArrivalDelta) (p : Packet) (out : Deltas)
    → let r = compare_groups s p out in
      ((r.next ≡ reset s) × (r.computed ≡ false))
      ⊎ ((s.num_consecutive_reordered_packets + 1 < 3)
          × ((r.next ≡ record s {
            num_consecutive_reordered_packets = s.num_consecutive_reordered_packets + 1;
          })
              × (r.computed ≡ false)))
      ⊎ ((r.next ≡ start_group (record s { num_consecutive_reordered_packets = 0 }) p)
          × (r.computed ≡ true))
unfolding compare_groups
compare_groups-cases s p out = ground arith

compare_groups-IsWell :
    (s : InterArrivalDelta) (p : Packet) (out : Deltas)
    → IsWell s
    → IsOpen s.current
    → IsPacket p
    → new_timestamp_group s p.arrival p.sent ≡ true
    → IsWell (compare_groups s p out).next
compare_groups-IsWell s p out h o v new = elim (compare_groups-cases s p out) [
  | inl (e, _) ↦ rw e (reset-IsWell s h)
  | inr (inl (few, (e, _))) ↦ rw e (recount-IsWell s _ h few)
  | inr (inr (e, _)) ↦ rw e (
      start_group-IsWell (record s { num_consecutive_reordered_packets = 0 }) p
        (recount-IsWell s 0 h (omega arith)) o v (recount-group s 0 p.arrival p.sent ∙ new))
]

-- And once there is a group.
pub compute_deltas-cases :
    (s : InterArrivalDelta) (p : Packet) (out : Deltas)
    → IsOpen s.current
    → let r = compute_deltas s p out in
      let new = new_timestamp_group s p.arrival p.sent in
      (r ≡ record { next = s; deltas = out; computed = false })
      ⊎ (r ≡ record { next = join_group s p; deltas = out; computed = false })
      ⊎ ((new ≡ true)
          × ((is_finite s.prev.complete_time ≡ false)
              × (r ≡ record { next = start_group s p; deltas = out; computed = false })))
      ⊎ ((new ≡ true) × ((is_finite s.prev.complete_time ≡ true) × (r ≡ compare_groups s p out)))
unfolding compute_deltas is_first_packet
compute_deltas-cases s p out o = ground (arith, time-finite s.current.complete_time o.complete)

compute_deltas-open :
    (s : InterArrivalDelta) (p : Packet) (out : Deltas)
    → IsWell s
    → IsOpen s.current
    → IsPacket p
    → IsWell (compute_deltas s p out).next
compute_deltas-open s p out h o v = elim (compute_deltas-cases s p out o) [
  | inl e ↦ rw e h
  | inr (inl e) ↦ rw e (join_group-IsWell s p h o v)
  | inr (inr (inl (new, (_, e)))) ↦ rw e (start_group-IsWell s p h o v new)
  | inr (inr (inr (new, (_, e)))) ↦ rw e (compare_groups-IsWell s p out h o v new)
]

-- Every packet keeps the invariant: the groups that are compared begin further apart than the group
-- length, whatever order the packets come in, and at most two reordered groups are counted.
pub compute_deltas-IsWell :
    (s : InterArrivalDelta) (p : Packet) (out : Deltas)
    → IsWell s
    → IsPacket p
    → IsWell (compute_deltas s p out).next
unfolding compute_deltas is_first_packet
compute_deltas-IsWell s p out h v = elim h.phase [
  | fresh e e' ↦ ground (arith, empty-infinite s.current e, first_packet-IsWell s p h e' v)
  | single o e ↦ compute_deltas-open s p out h o v
  | double o q d ↦ compute_deltas-open s p out h o v
]
