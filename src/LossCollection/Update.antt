-- ===== src/LossCollection/Update.antt =====
-- A packet in order joins the window in effect, which ends when its duration is over.
use gcc_chrome.Common.{
  ℕ, ◌+◌, ◌%◌, ◌^◌, ◌<◌, ◌≤◌, ◌≡◌, refl, ◌⊎◌, true, false, [], arith, inl, inr, ap,
}
use gcc_chrome.Common.Double.{Double}
use gcc_chrome.Common.Int.{pos, pos_part, ltb_ℤ}
use gcc_chrome.Common.Result.{ok}
use gcc_chrome.Unit.{add}
use gcc_chrome.Unit.Exact.{IsClock, add-eq}
use gcc_chrome.NetworkTypes.{PacketResult}
use gcc_chrome.LossCollection.{
  ReceiveVector, ReceiverLossCollection, join_effect_vector, on_receive_duration_end,
  receive_duration, received_count, report_due, get_wait_duration, push_newest,
  update_effect_vector, update_rtt,
}
use gcc_chrome.LossCollection.Window.{
  IsIdle, IsWindow, received_in, push_newest-IsIdle, push_newest-IsWindow,
}
use gcc_chrome.LossCollection.Invariant.{
  IsWait, Ready, fresh, filling, waiting, both, Between, pending, get_wait_duration-IsWait, due-le,
}

abbrev pub seq : PacketResult → ℕ
seq p = p.sent_packet.sequence_number

idle-received : {v : ReceiveVector} → IsIdle v → received_in v ≡ 0
unfolding received_count
idle-received h = rw h.empty refl

ℕ_le-cases : (a b : ℕ) → (a ≤ b) ⊎ (b < a)
ℕ_le-cases a b = omega arith

module _ {ℓ} (F : Type ℓ) ⦃fl : Double F⦄ (s : ReceiverLossCollection) (p : PacketResult) where
  abbrev grown : ReceiveVector
  grown = push_newest s.in_effect_vector p

  abbrev joined : ReceiverLossCollection
  joined = record {
    smooth_rtt = update_rtt F s.smooth_rtt p;
    in_effect_vector = grown;
    wait_vector = s.wait_vector;
  }

  abbrev ended : ReceiverLossCollection
  ended = record {
    smooth_rtt = pos 0;
    in_effect_vector = record s.wait_vector {
      first_packet_number = (grown.largest_packet_number + 1) % 2 ^ 64;
    };
    wait_vector = record grown { wait_duration = get_wait_duration joined.smooth_rtt };
  }

  update-stays :
      s.in_effect_vector.first_packet_number ≤ seq p
      → s.in_effect_vector.largest_packet_number < seq p
      → ltb_ℤ (add grown.first_received_time receive_duration) p.receive_time ≡ false
      → update_effect_vector F s p ≡ ok joined
  unfolding update_effect_vector join_effect_vector on_receive_duration_end
  update-stays first newer h = ground arith

  update-ends :
      s.in_effect_vector.first_packet_number ≤ seq p
      → s.in_effect_vector.largest_packet_number < seq p
      → s.wait_vector.received_vector ≡ []
      → ltb_ℤ (add grown.first_received_time receive_duration) p.receive_time ≡ true
      → update_effect_vector F s p ≡ ok ended
  unfolding update_effect_vector join_effect_vector on_receive_duration_end
  update-ends first newer idle h = ground arith

  -- The packet is taken into the window in effect, and marked once.
  abbrev pub Takes : Type 0
  Takes =
      (s' : ReceiverLossCollection) × (update_effect_vector F s p ≡ ok s')
      × Between s' p.sent_packet.sequence_number p.receive_time
      × (pending s' ≡ pending s + 1)

  module _ (newer : s.in_effect_vector.largest_packet_number < seq p)
      (first : s.in_effect_vector.first_packet_number ≤ seq p) (small : seq p < 2 ^ 63)
      (c : IsClock p.receive_time) (window : IsWindow grown (seq p) p.receive_time) where
    end-eq :
        add grown.first_received_time receive_duration
        ≡ pos (pos_part grown.first_received_time + 200_000)
    end-eq = add-eq grown.first_received_time receive_duration window.first_time (omega arith)

    stays :
        pos_part p.receive_time ≤ pos_part grown.first_received_time + 200_000
        → update_effect_vector F s p ≡ ok joined
    stays h = update-stays first newer (ground (arith, end-eq))

    pub fills :
        IsIdle s.wait_vector
        → received_in grown ≡ received_in s.in_effect_vector + 1
        → pos_part p.receive_time ≤ pos_part grown.first_received_time + 200_000
        → Takes
    fills w count at = (joined, stays at, filling window w at, omega arith)

    pub fills-both :
        (m : ℕ)
        → IsWindow s.wait_vector m p.receive_time
        → IsWait s.wait_vector.wait_duration
        → pos_part s.wait_vector.first_received_time + 200_000 < pos_part grown.first_received_time
        → pos_part p.receive_time ≤ pos_part (report_due s.wait_vector)
        → received_in grown ≡ received_in s.in_effect_vector + 1
        → pos_part p.receive_time ≤ pos_part grown.first_received_time + 200_000
        → Takes
    fills-both m w d gap due count at = (joined, stays at, both m window w d gap due, omega arith)

    ended-IsIdle : IsIdle s.wait_vector → IsIdle ended.in_effect_vector
    ended-IsIdle w = ground arith

    ended-IsWindow : IsWindow ended.wait_vector (seq p) p.receive_time
    ended-IsWindow = ground arith

    ended-received : IsIdle s.wait_vector → received_in ended.in_effect_vector ≡ 0
    unfolding received_count
    ended-received w = rw w.empty refl

    pub closes :
        IsIdle s.wait_vector
        → received_in grown ≡ received_in s.in_effect_vector + 1
        → pos_part grown.first_received_time + 200_000 < pos_part p.receive_time
        → Takes
    closes w count over = (
      ended,
      update-ends first newer w.empty (ground (arith, end-eq)),
      waiting (seq p) (ended-IsIdle w) ended-IsWindow (omega arith)
          (get_wait_duration-IsWait joined.smooth_rtt) over,
      omega (arith, ended-received w, idle-received w),
    )

module _ {ℓ} (F : Type ℓ) ⦃fl : Double F⦄ where
  -- A packet newer than all before it is taken into the window in effect; no assertion fails, no
  -- access is out of bounds, and its one mark is added to those pending.
  pub update_effect_vector-Takes :
      (s : ReceiverLossCollection) (n : ℕ) (p : PacketResult)
      → Ready s n p.receive_time
      → n < seq p
      → seq p < 2 ^ 63
      → IsClock p.receive_time
      → Takes F s p
  update_effect_vector-Takes s n p (fresh e w le) newer small c =
      let (window, start, count) = push_newest-IsIdle s.in_effect_vector p e (omega arith) in
      fills F s p (omega arith) (omega arith) small c window w
        (omega (arith, count, idle-received e)) (omega (arith, ap pos_part start))
  update_effect_vector-Takes s n p (filling e w) newer small c =
      let (window, start, wd, count) =
        push_newest-IsWindow s.in_effect_vector n p.receive_time p e newer (omega arith)
          (omega arith) in
      elim (ℕ_le-cases (pos_part p.receive_time)
        (pos_part (push_newest s.in_effect_vector p).first_received_time + 200_000)) [
          | inl at ↦ fills F s p (omega arith) (omega arith) small c window w count at
          | inr over ↦ closes F s p (omega arith) (omega arith) small c window w count over
        ]
  update_effect_vector-Takes s n p (waiting m e w le d gap due) newer small c =
      let (window, start, count) = push_newest-IsIdle s.in_effect_vector p e (omega arith) in
      fills-both F s p (omega arith) (omega arith) small c window m w d
        (omega (arith, ap pos_part start)) due (omega (arith, count, idle-received e))
        (omega (arith, ap pos_part start))
  update_effect_vector-Takes s n p (both m e w d gap due) newer small c =
      let (window, start, wd, count) =
        push_newest-IsWindow s.in_effect_vector n p.receive_time p e newer (omega arith)
          (omega arith) in
      let at = ap pos_part start in
      fills-both F s p (omega arith) (omega arith) small c window m w d (omega (arith, at)) due
        count (omega (arith, at, due-le s.wait_vector m p.receive_time w c d))
