-- ===== src/LossCollection/Stream.antt =====
-- Packets that arrive in order: the receiver hands them to the collection one at a time, as
-- `Receiver::OnDataPacketReceived` does.
use gcc_chrome.Common.{ℕ, ◌+◌, ◌^◌, ◌<◌, ◌≤◌, ◌≡◌, refl, List, [], ◌∷◌, arith}
use gcc_chrome.Common.Double.{Double}
use gcc_chrome.Common.Int.{ℤ, pos, pos_part}
use gcc_chrome.Common.Lists.{length}
use gcc_chrome.Common.Result.{ok, ◌>>=◌}
use gcc_chrome.Unit.Exact.{IsClock}
use gcc_chrome.NetworkTypes.{PacketResult}
use gcc_chrome.LossCollection.{
  ReceiverLossCollection, LossReportUpdate, Outcome, new_collection, received_count,
  maybe_generate_report, update_effect_vector, on_transport_packet_feedback,
  on_transport_packets_feedback, feedback_loop,
}
use gcc_chrome.LossCollection.Invariant.{
  Between, fresh, filling, waiting, both, pending, maybe_generate_report-Ready,
}
use gcc_chrome.LossCollection.Update.{seq, update_effect_vector-Takes}

-- Sequence numbers grow, and times do not fall.
abbrev pub InOrder : ℕ → ℤ → List PacketResult → Type 0
InOrder n t [] = Unit
InOrder n t (p ∷ ps) =
    (n < seq p)
    × (seq p < 2 ^ 63)
    × IsClock p.receive_time
    × (pos_part t ≤ pos_part p.receive_time)
    × InOrder (seq p) p.receive_time ps

Between-first_le :
    {s : ReceiverLossCollection} {n : ℕ} {t : ℤ}
    → Between s n t
    → s.in_effect_vector.first_packet_number ≤ n + 1
Between-first_le (fresh e w le) = le
Between-first_le (filling e w at) = omega arith
Between-first_le (waiting m e w le d gap) = le
Between-first_le (both m e w d gap due) = omega arith

pub new_collection-Between : Between new_collection 0 (pos 0)
unfolding new_collection
new_collection-Between =
    fresh (record { empty = refl; no_first_time = refl; no_largest_time = refl; no_largest = refl })
      (record { empty = refl; no_first_time = refl; no_largest_time = refl; no_largest = refl })
      (omega arith)

nothing_pending : pending new_collection ≡ 0
unfolding new_collection received_count
nothing_pending = refl

module _ {ℓ} (F : Type ℓ) ⦃fl : Double F⦄ where
  -- The calls of the receiver: the collection after the packets, and what each call returned.
  pub collect :
      ReceiverLossCollection
      → List PacketResult
      → Outcome (ReceiverLossCollection × List LossReportUpdate)
  collect s [] = ok (s, [])
  collect s (p ∷ ps) = on_transport_packets_feedback F s (p ∷ []) >>= λ r.
      collect r.0 ps >>= λ rest. ok (rest.0, r.1 ∷ rest.1)

  abbrev pub reported : List LossReportUpdate → ℕ
  reported [] = 0
  reported (r ∷ rs) = r.report.packets_received_delta + reported rs

  abbrev pub Advances : ReceiverLossCollection → PacketResult → Type 0
  Advances s p =
      (s' : ReceiverLossCollection) × (r : LossReportUpdate) × (on_transport_packet_feedback F s p
        ≡ ok (s', r))
      × Between s' (seq p) p.receive_time
      × (r.report.packets_received_delta + pending s' ≡ pending s + 1)

  steps_to :
      (s s₁ s₂ : ReceiverLossCollection) (p : PacketResult) (r : LossReportUpdate)
      → s.in_effect_vector.first_packet_number ≤ seq p
      → maybe_generate_report s p.receive_time ≡ ok (s₁, r)
      → update_effect_vector F s₁ p ≡ ok s₂
      → on_transport_packet_feedback F s p ≡ ok (s₂, r)
  unfolding on_transport_packet_feedback
  steps_to s s₁ s₂ p r first made taken = ground arith

  -- A packet in order is processed without a fault and keeps the invariant; its mark is added to
  -- those that are pending or reported.
  pub on_transport_packet_feedback-Advances :
      (s : ReceiverLossCollection) (n : ℕ) (t : ℤ) (p : PacketResult)
      → Between s n t
      → IsClock t
      → n < seq p
      → seq p < 2 ^ 63
      → IsClock p.receive_time
      → pos_part t ≤ pos_part p.receive_time
      → Advances s p
  on_transport_packet_feedback-Advances s n t p b clock newer small clock' later =
      let (s₁, r, made, ready, same, kept) =
        maybe_generate_report-Ready s n t p.receive_time b clock clock' later in
      let (s₂, taken, between, more) =
        update_effect_vector-Takes F s₁ n p ready newer small clock' in
      (
        s₂,
        r,
        steps_to s s₁ s₂ p r (omega (arith, Between-first_le b)) made taken,
        between,
        omega arith,
      )

  pub one_packet :
      (s s' : ReceiverLossCollection) (p : PacketResult) (r : LossReportUpdate)
      → on_transport_packet_feedback F s p ≡ ok (s', r)
      → on_transport_packets_feedback F s (p ∷ []) ≡ ok (s', r)
  unfolding on_transport_packets_feedback feedback_loop
  one_packet s s' p r e = ground arith

  abbrev Collected : ReceiverLossCollection → List PacketResult → Type 0
  Collected s ps =
      (s' : ReceiverLossCollection) × (rs : List LossReportUpdate) × (collect s ps ≡ ok (s', rs))
      × (length rs ≡ length ps)
      × (reported rs + pending s' ≡ pending s + length ps)

  collect_from :
      (s : ReceiverLossCollection) (n : ℕ) (t : ℤ) (ps : List PacketResult)
      → Between s n t
      → IsClock t
      → InOrder n t ps
      → Collected s ps
  unfolding collect
  collect_from s n t [] b clock o = (s, [], refl, refl, omega arith)
  collect_from s n t (p ∷ ps) b clock (newer, small, clock', later, o) =
      let (s₁, r, e, b₁, one) =
        on_transport_packet_feedback-Advances s n t p b clock newer small clock' later in
      let (s₂, rs, e', count, all) = collect_from s₁ (seq p) p.receive_time ps b₁ clock' o in
      (
        s₂,
        r ∷ rs,
        rw (one_packet s s₁ p r e, e') refl,
        omega (arith, count),
        omega (arith, all, one),
      )

  -- From the start, packets whose numbers grow and whose times do not fall are all processed: no
  -- assertion fails and no access is out of bounds. Each call returns a report, and the packets that
  -- the reports count as received, with those marked in the two windows, are just the packets that
  -- came.
  pub collect-InOrder :
      (ps : List PacketResult)
      → InOrder 0 (pos 0) ps
      → (s : ReceiverLossCollection) × (rs : List LossReportUpdate) × (collect new_collection ps
          ≡ ok (s, rs))
        × (length rs ≡ length ps)
        × (reported rs + pending s ≡ length ps)
  collect-InOrder ps o =
      let (s, rs, e, count, all) =
        collect_from new_collection 0 (pos 0) ps new_collection-Between (omega arith) o in
      (s, rs, e, count, omega (arith, all, nothing_pending))
