-- ===== src/NetworkTypes/Sorted.antt =====
-- The packets of a feedback in the order of their receive times.
use gcc_chrome.Common.{◌≡◌, ◌≤◌, ◌⊎◌, true, false, List, [], ◌∷◌, ◌++◌, inl, inr, Bool-cases, arith}
use gcc_chrome.Common.Lists.{All}
use gcc_chrome.Common.Int.{◌<ℤ◌}
use gcc_chrome.NetworkTypes.{
  PacketResult, TransportPacketsFeedback, is_received, received_with_send_info, lost_with_send_info,
  receive_time_order, insert_packet, sort_packets, sorted_by_receive_time,
}
use mathlib.Core.List.{Perm, perm_middle}
use mathlib.Core.List.Perm

-- A packet may stand before another: it came earlier, or at the same time and was sent earlier, or
-- was sent at the same time too and its number is no larger.
abbrev pub InOrder : PacketResult → PacketResult → Type 0
InOrder p q =
    (p.receive_time <ℤ q.receive_time)
    ⊎ ((p.receive_time ≡ q.receive_time)
        × ((p.sent_packet.send_time <ℤ q.sent_packet.send_time)
            ⊎ ((p.sent_packet.send_time ≡ q.sent_packet.send_time)
                × (p.sent_packet.sequence_number ≤ q.sent_packet.sequence_number))))

-- Each packet may stand before all that follow it.
abbrev pub AreInOrder : List PacketResult → Type 0
AreInOrder [] = Unit
AreInOrder (p ∷ ps) = All (InOrder p) ps × AreInOrder ps

-- No packet comes before the ones that stand before it, by the order of the source.
abbrev IsSorted : List PacketResult → Type 0
IsSorted [] = Unit
IsSorted (p ∷ ps) = All (λ q. receive_time_order q p ≡ false) ps × IsSorted ps

not_before : (p q : PacketResult) → receive_time_order q p ≡ false → InOrder p q
unfolding receive_time_order
not_before p q h = ground arith

none_before :
    (p : PacketResult) (qs : List PacketResult)
    → All (λ q. receive_time_order q p ≡ false) qs
    → All (InOrder p) qs
none_before p [] h = tt
none_before p (q ∷ qs) (h, hs) = (not_before p q h, none_before p qs hs)

sorted_in_order : (ps : List PacketResult) → IsSorted ps → AreInOrder ps
sorted_in_order [] h = tt
sorted_in_order (p ∷ ps) (h, hs) = (none_before p ps h, sorted_in_order ps hs)

order_trans :
    (a b c : PacketResult)
    → receive_time_order b a ≡ false
    → receive_time_order c b ≡ false
    → receive_time_order c a ≡ false
unfolding receive_time_order
order_trans a b c h k = ground arith

order_asym : (a b : PacketResult) → receive_time_order a b ≡ true → receive_time_order b a ≡ false
unfolding receive_time_order
order_asym a b h = ground arith

All-trans :
    (a b : PacketResult) (ps : List PacketResult)
    → receive_time_order b a ≡ false
    → All (λ q. receive_time_order q b ≡ false) ps
    → All (λ q. receive_time_order q a ≡ false) ps
All-trans a b [] h all = tt
All-trans a b (p ∷ ps) h (k, all) = (order_trans a b p h k, All-trans a b ps h all)

insert_packet-All :
    (a p : PacketResult) (ps : List PacketResult)
    → receive_time_order p a ≡ false
    → All (λ q. receive_time_order q a ≡ false) ps
    → All (λ q. receive_time_order q a ≡ false) (insert_packet p ps)
unfolding insert_packet
insert_packet-All a p [] h all = (h, tt)
insert_packet-All a p (q ∷ qs) h (k, all) = elim (Bool-cases (receive_time_order q p)) [
  | inl before ↦ rw (before, insert_packet) (k, insert_packet-All a p qs h all)
  | inr after ↦ rw (after, insert_packet) (h, (k, all))
]

insert_packet-IsSorted :
    (p : PacketResult) (ps : List PacketResult) → IsSorted ps → IsSorted (insert_packet p ps)
unfolding insert_packet
insert_packet-IsSorted p [] h = (tt, tt)
insert_packet-IsSorted p (q ∷ qs) (all, h) = elim (Bool-cases (receive_time_order q p)) [
  | inl before ↦
      rw (before, insert_packet)
        (insert_packet-All q p qs (order_asym q p before) all, insert_packet-IsSorted p qs h)
  | inr after ↦ rw (after, insert_packet) ((after, All-trans p q qs after all), (all, h))
]

insert_packet-perm :
    (p : PacketResult) (ps : List PacketResult) → Perm (insert_packet p ps) (p ∷ ps)
unfolding insert_packet
insert_packet-perm p [] = Perm.refl (p ∷ [])
insert_packet-perm p (q ∷ qs) = elim (Bool-cases (receive_time_order q p)) [
  | inl before ↦
      rw (before, insert_packet)
        (Perm.trans (Perm.cons q (insert_packet-perm p qs)) (Perm.swap p q qs))
  | inr after ↦ rw (after, insert_packet) (Perm.refl (p ∷ q ∷ qs))
]

sort_packets_lem : (ps : List PacketResult) → IsSorted (sort_packets ps) × Perm (sort_packets ps) ps
unfolding sort_packets
sort_packets_lem [] = (tt, Perm.refl [])
sort_packets_lem (p ∷ ps) =
    let (sorted, perm) = sort_packets_lem ps in
    (
      insert_packet-IsSorted p (sort_packets ps) sorted,
      Perm.trans (insert_packet-perm p (sort_packets ps)) (Perm.cons p perm),
    )

received-append-lost :
    (ps : List PacketResult) → Perm (received_with_send_info ps ++ lost_with_send_info ps) ps
unfolding received_with_send_info lost_with_send_info
received-append-lost [] = Perm.refl []
received-append-lost (p ∷ ps) = elim (Bool-cases (is_received p)) [
  | inl here ↦
      rw (here, received_with_send_info, lost_with_send_info)
        (Perm.cons p (received-append-lost ps))
  | inr lost ↦
      rw (lost, received_with_send_info, lost_with_send_info)
        (Perm.trans (perm_middle (received_with_send_info ps) (lost_with_send_info ps))
          (Perm.cons p (received-append-lost ps)))
]

-- The packets by receive time: of two, the first came earlier, or at the same time and was sent
-- earlier, or was sent at the same time too and its number is no larger; and together with the lost
-- packets they are the packets of the feedback, each as often as there.
pub sorted_by_receive_time_lem :
    (msg : TransportPacketsFeedback)
    → AreInOrder (sorted_by_receive_time msg)
      × Perm
          (sorted_by_receive_time msg ++ lost_with_send_info msg.packet_feedbacks)
          msg.packet_feedbacks
unfolding sorted_by_receive_time
sorted_by_receive_time_lem msg =
    let (sorted, perm) = sort_packets_lem (received_with_send_info msg.packet_feedbacks) in
    (
      sorted_in_order (sorted_by_receive_time msg) sorted,
      Perm.trans (Perm.append_right (lost_with_send_info msg.packet_feedbacks) perm)
          (received-append-lost msg.packet_feedbacks),
    )
