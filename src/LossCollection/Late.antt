-- ===== src/LossCollection/Late.antt =====
-- Packets that arrive late or twice.
use gcc_chrome.Common.{
  ℕ, zero, suc, ◌+◌, ◌^◌, ◌<◌, ◌≤◌, ◌≡◌, refl, Bool, true, false, some, List, [], ◌∷◌, arith,
}
use gcc_chrome.Common.Double.{Double}
use gcc_chrome.Common.Int.{ℤ}
use gcc_chrome.Common.Result.{ok, err}
use gcc_chrome.NetworkTypes.{PacketResult}
use gcc_chrome.LossCollection.{
  ReceiveVector, ReceiverLossCollection, assertion, out_of_bounds, mark, sub_u64, received_count,
  loss_count, maybe_generate_report, update_wait_vector, join_effect_vector, update_effect_vector,
  on_transport_packet_feedback, push_newest,
}
use gcc_chrome.LossCollection.Window.{IsIdle, IsWindow}
use gcc_chrome.LossCollection.Update.{seq}

mark_counts :
    (bs : List Bool) (i : ℕ)
    → i < received_count bs + loss_count bs
    → (cs : List Bool) × (mark bs i ≡ some cs)
      × (received_count cs + loss_count cs ≡ received_count bs + loss_count bs)
      × (received_count bs ≤ received_count cs)
      × (received_count cs ≤ received_count bs + 1)
unfolding mark received_count loss_count
mark_counts [] i h = absurd (omega arith)
mark_counts (true ∷ bs) zero h = (true ∷ bs, refl, omega arith, omega arith, omega arith)
mark_counts (false ∷ bs) zero h = (true ∷ bs, refl, omega arith, omega arith, omega arith)
mark_counts (true ∷ bs) (suc i) h =
    let (cs, e, sum, lo, hi) = mark_counts bs i (omega arith) in
    (true ∷ cs, rw (e, mark) refl, omega arith, omega arith, omega arith)
mark_counts (false ∷ bs) (suc i) h =
    let (cs, e, sum, lo, hi) = mark_counts bs i (omega arith) in
    (false ∷ cs, rw (e, mark) refl, omega arith, omega arith, omega arith)

-- A late packet of the waiting window, older than its newest, turns at most one lost packet into a
-- received one: the window covers as many packets as before, and its bounds and times stay.
pub update_wait_vector_late :
    (s : ReceiverLossCollection) (m : ℕ) (t : ℤ) (p : PacketResult)
    → IsWindow s.wait_vector m t
    → m < 2 ^ 63
    → s.wait_vector.first_packet_number ≤ seq p
    → seq p < m
    → (s' : ReceiverLossCollection) × (update_wait_vector s p ≡ ok s')
      × (received_count s'.wait_vector.received_vector
            + loss_count s'.wait_vector.received_vector
            + s'.wait_vector.first_packet_number
          ≡ m + 1)
      × (received_count s.wait_vector.received_vector
          ≤ received_count s'.wait_vector.received_vector)
      × (received_count s'.wait_vector.received_vector
          ≤ received_count s.wait_vector.received_vector + 1)
      × (s'.in_effect_vector ≡ s.in_effect_vector)
unfolding update_wait_vector
update_wait_vector_late s m t p w small first late =
    let bs = s.wait_vector.received_vector in
    let i = sub_u64 (seq p) s.wait_vector.first_packet_number in
    let (cs, e, sum, lo, hi) = mark_counts bs i (omega arith) in
    (
      record s { wait_vector = record s.wait_vector { received_vector = cs } },
      ground arith,
      omega arith,
      lo,
      hi,
      refl,
    )

module _ {ℓ} (F : Type ℓ) ⦃fl : Double F⦄ where
  -- The bug: once the waiting window has been reported, a packet older than the window in effect
  -- fails an assertion.
  pub late_packet_asserts :
      (s : ReceiverLossCollection) (p : PacketResult)
      → IsIdle s.wait_vector
      → seq p < s.in_effect_vector.first_packet_number
      → on_transport_packet_feedback F s p ≡ err assertion
  unfolding on_transport_packet_feedback update_wait_vector
  late_packet_asserts s p w late = ground arith

  -- The bug: a packet of the window in effect that is not newer than its newest, as one that was
  -- overtaken or sent twice, is looked up in the waiting window. While that is empty the access is
  -- out of bounds.
  pub overtaken_packet_out_of_bounds :
      (s : ReceiverLossCollection) (n : ℕ) (t : ℤ) (p : PacketResult)
      → IsWindow s.in_effect_vector n t
      → IsIdle s.wait_vector
      → s.in_effect_vector.first_packet_number ≤ seq p
      → seq p ≤ n
      → on_transport_packet_feedback F s p ≡ err out_of_bounds
  unfolding on_transport_packet_feedback maybe_generate_report received_count update_effect_vector
      join_effect_vector mark
  overtaken_packet_out_of_bounds s n t p e w first old = ground arith

-- The packets that are missing between two windows are in neither: the next window starts at the
-- first packet that came, whatever number was expected, and counts no loss.
pub gap_between_windows :
    (v : ReceiveVector) (p : PacketResult)
    → IsIdle v
    → ((push_newest v p).first_packet_number ≡ seq p)
      × (loss_count (push_newest v p).received_vector ≡ 0)
unfolding push_newest loss_count
gap_between_windows v p h = rw (h.empty, push_newest) (ground arith)
