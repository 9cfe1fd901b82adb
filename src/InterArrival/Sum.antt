-- ===== src/InterArrival/Sum.antt =====
-- The deltas of a run of packets add up to what lies between its first and its last group.
use gcc_chrome.Common.{
  ◌⊎◌, inl, inr, ◌≡◌, refl, ap, sym, ◌∙◌, true, false, List, [], ◌∷◌, arith, if◌then◌else◌,
}
use gcc_chrome.Common.Int.{ℤ, pos, ◌+ℤ◌, ◌-ℤ◌, ◌≤ℤ◌, ◌<ℤ◌, eq_of_parts, +ℤ_parts, -ℤ_parts}
use gcc_chrome.Common.Lists.{All}
use gcc_chrome.Unit.{is_finite, sub, minus_infinity}
use gcc_chrome.Unit.Exact.{IsTime, sub-parts}
use gcc_chrome.InterArrival.{
  InterArrivalDelta, Packet, Deltas, Outcome, reset, accumulate, start_group, join_group,
  compare_groups, compute_deltas, arrival_time_offset_threshold,
}
use gcc_chrome.InterArrival.Group.{
  IsPacket, IsOpen, IsWell, fresh, single, double, compute_deltas-cases, compute_deltas-IsWell,
}

abbrev pub no_deltas : Deltas
no_deltas = record {
  send_time_delta = pos 0;
  arrival_time_delta = pos 0;
  packet_size_delta = pos 0;
}

-- What a call reports, when there is a group to compare with and the call does not forget it: the
-- times between that group and the current one, which takes its place.
abbrev Report : InterArrivalDelta → Outcome → Type 0
Report s r =
    ((r.computed ≡ false) × (r.next.prev ≡ s.prev))
    ⊎ ((r.computed ≡ true)
        × (r.next.prev ≡ s.current)
        × (r.deltas.send_time_delta ≡ sub s.current.send_time s.prev.send_time)
        × (r.deltas.arrival_time_delta ≡ sub s.current.complete_time s.prev.complete_time))

reset-prev : (s : InterArrivalDelta) → is_finite (reset s).prev.complete_time ≡ false
unfolding reset is_finite
reset-prev s = refl

compare_groups-Report :
    (s : InterArrivalDelta) (p : Packet) (out : Deltas)
    → is_finite (compare_groups s p out).next.prev.complete_time ≡ true
    → Report s (compare_groups s p out)
unfolding compare_groups start_group accumulate
compare_groups-Report s p out h = ground (arith, reset-prev s)

join_group-prev : (s : InterArrivalDelta) (p : Packet) → (join_group s p).prev ≡ s.prev
unfolding join_group accumulate
join_group-prev s p = refl

compute_deltas-Report :
    (s : InterArrivalDelta) (p : Packet) (out : Deltas)
    → IsOpen s.current
    → is_finite s.prev.complete_time ≡ true
    → is_finite (compute_deltas s p out).next.prev.complete_time ≡ true
    → Report s (compute_deltas s p out)
compute_deltas-Report s p out o f h = elim (compute_deltas-cases s p out o) [
  | inl e ↦ rw e (inl (refl, refl))
  | inr (inl e) ↦ rw e (inl (refl, join_group-prev s p))
  | inr (inr (inl (_, (g, e)))) ↦ ground (arith, f, g)
  | inr (inr (inr (_, (_, e)))) ↦
      rw e
        (compare_groups-Report s p out (sym (ap (λ r. is_finite r.next.prev.complete_time) e) ∙ h))
]

-- The calls for a run of packets, and the sums of the deltas that they report.
abbrev pub next : InterArrivalDelta → Packet → InterArrivalDelta
next s p = (compute_deltas s p no_deltas).next

abbrev pub run : InterArrivalDelta → List Packet → InterArrivalDelta
run s [] = s
run s (p ∷ ps) = run (next s p) ps

abbrev pub reported : Outcome → ℤ × ℤ
reported r =
    if r.computed then (r.deltas.send_time_delta, r.deltas.arrival_time_delta) else (pos 0, pos 0)

abbrev pub totals : InterArrivalDelta → List Packet → ℤ × ℤ
totals s [] = (pos 0, pos 0)
totals s (p ∷ ps) =
    let (sent, arrived) = totals (next s p) ps in
    let (sent', arrived') = reported (compute_deltas s p no_deltas) in
    (sent' +ℤ sent, arrived' +ℤ arrived)

-- No call of the run finds that a clock has jumped and forgets the groups.
abbrev pub NoReset : InterArrivalDelta → List Packet → Type 0
NoReset s [] = Unit
NoReset s (p ∷ ps) = (is_finite (next s p).prev.complete_time ≡ true) × NoReset (next s p) ps

self-difference : (a : ℤ) → pos 0 ≡ a -ℤ a
self-difference a = eq_of_parts (pos 0) (a -ℤ a) (omega (arith, -ℤ_parts a a))

chain : (a b c : ℤ) → (b -ℤ a) +ℤ (c -ℤ b) ≡ c -ℤ a
chain a b c =
    eq_of_parts ((b -ℤ a) +ℤ (c -ℤ b)) (c -ℤ a)
      (omega (arith, +ℤ_parts (b -ℤ a) (c -ℤ b), -ℤ_parts b a, -ℤ_parts c b, -ℤ_parts c a))

sub-exact : (a b : ℤ) → IsTime a → IsTime b → sub a b ≡ a -ℤ b
sub-exact a b p q = eq_of_parts (sub a b) (a -ℤ b) (omega (arith, sub-parts a b p q, -ℤ_parts a b))

empty-not-finite : (t : ℤ) → t ≡ minus_infinity → is_finite t ≡ false
unfolding is_finite
empty-not-finite t e = rw e refl

two-groups :
    (s : InterArrivalDelta)
    → IsWell s
    → is_finite s.prev.complete_time ≡ true
    → IsOpen s.current × IsOpen s.prev
two-groups s h f = elim h.phase [
  | fresh _ e ↦ ground (arith, f, empty-not-finite s.prev.complete_time e)
  | single _ e ↦ ground (arith, f, empty-not-finite s.prev.complete_time e)
  | double o q _ ↦ (o, q)
]

reported-eq :
    (s : InterArrivalDelta) (r : Outcome)
    → IsOpen s.current × IsOpen s.prev
    → Report s r
    → ((reported r).0 ≡ r.next.prev.send_time -ℤ s.prev.send_time)
      × ((reported r).1 ≡ r.next.prev.complete_time -ℤ s.prev.complete_time)
reported-eq s r _ (inl (e, same)) =
    rw (e, same) (self-difference s.prev.send_time, self-difference s.prev.complete_time)
reported-eq s r (o, q) (inr (e, moved, sent, arrived)) =
    rw (e, moved, sent, arrived)
      (
        sub-exact s.current.send_time s.prev.send_time o.last q.last,
        sub-exact s.current.complete_time s.prev.complete_time o.complete q.complete,
      )

-- After a run of packets that starts with two groups and that resets nothing, the sum of the reported
-- send time deltas is what lies between the send times of the previous group before and after it,
-- and the sum of the arrival time deltas what lies between the arrivals: no time is counted twice
-- or lost.
pub totals-telescope :
    (s : InterArrivalDelta) (ps : List Packet)
    → IsWell s
    → is_finite s.prev.complete_time ≡ true
    → All IsPacket ps
    → NoReset s ps
    → ((totals s ps).0 ≡ (run s ps).prev.send_time -ℤ s.prev.send_time)
      × ((totals s ps).1 ≡ (run s ps).prev.complete_time -ℤ s.prev.complete_time)
totals-telescope s [] h f v n =
    (self-difference s.prev.send_time, self-difference s.prev.complete_time)
totals-telescope s (p ∷ ps) h f (v, vs) (n, ns) =
    let (a, b) = totals-telescope (next s p) ps (compute_deltas-IsWell s p no_deltas h v) n vs ns in
    let (sent, arrived) =
      reported-eq s (compute_deltas s p no_deltas) (two-groups s h f)
        (compute_deltas-Report s p no_deltas (two-groups s h f).0 f n) in
    (
      rw (sent, a)
          (chain s.prev.send_time (next s p).prev.send_time (run (next s p) ps).prev.send_time),
      rw (arrived, b)
          (chain s.prev.complete_time (next s p).prev.complete_time
            (run (next s p) ps).prev.complete_time),
    )

compare_groups-computed :
    (s : InterArrivalDelta) (p : Packet) (out : Deltas)
    → (compare_groups s p out).computed ≡ true
    → let r = compare_groups s p out in
      (pos 0 ≤ℤ r.deltas.arrival_time_delta)
      × (sub r.deltas.arrival_time_delta (sub s.current.last_system_time s.prev.last_system_time)
          <ℤ arrival_time_offset_threshold)
      × (r.next.prev ≡ s.current)
      × (r.next.current.first_send_time ≡ p.sent)
      × (r.next.current.size ≡ p.packet_size)
unfolding compare_groups start_group accumulate
compare_groups-computed s p out c = ground arith

-- A call that reports deltas has compared the current group, complete, with the previous one: the
-- arrivals are in order, and their distance exceeds that of the times at which the packets were handled by
-- less than three seconds. The packet opens a new group.
pub compute_deltas-computed :
    (s : InterArrivalDelta) (p : Packet) (out : Deltas)
    → IsWell s
    → is_finite s.prev.complete_time ≡ true
    → (compute_deltas s p out).computed ≡ true
    → let r = compute_deltas s p out in
      (pos 0 ≤ℤ r.deltas.arrival_time_delta)
      × (sub r.deltas.arrival_time_delta (sub s.current.last_system_time s.prev.last_system_time)
          <ℤ arrival_time_offset_threshold)
      × (r.next.prev ≡ s.current)
      × (r.next.current.first_send_time ≡ p.sent)
      × (r.next.current.size ≡ p.packet_size)
compute_deltas-computed s p out h f c = elim (compute_deltas-cases s p out (two-groups s h f).0) [
  | inl e ↦ ground (arith, c, e)
  | inr (inl e) ↦ ground (arith, c, e)
  | inr (inr (inl (_, (g, e)))) ↦ ground (arith, f, g)
  | inr (inr (inr (_, (_, e)))) ↦
      rw e (compare_groups-computed s p out (sym (ap (λ r. r.computed) e) ∙ c))
]
