-- ===== src/Session/Steps.antt =====
-- What the calls of the two programs do to the texts on their way.
use gcc_chrome.Common.{
  ℕ, ◌+◌, ◌*◌, ◌%◌, ◌^◌, ◌≤◌, ◌<◌, ◌≡◌, refl, ◌∙◌, ◌⊎◌, inl, inr, true, Bool-cases, List, [], ◌∷◌,
  ltb, arith,
}
use mathlib.Core.List.{Mem}
use gcc_chrome.Common.Double.{Double}
use gcc_chrome.Common.Int.{pos, ltb_ℤ, int64, ◌+ℤ◌}
use gcc_chrome.Common.Lists.{length, All}
use gcc_chrome.Common.Result.{ok}
use gcc_chrome.Unit.{Timestamp, DataRate}
use gcc_chrome.Packet.{
  Text, RrPacket, serialize_rr, packet_type_to_string, DataPacket, RembPacket, default_packet_size,
  make_data_packet, serialize_data, serialize_remb,
}
use gcc_chrome.Packet.RoundTrip.{FitsNumber}
use gcc_chrome.Sender as S
use gcc_chrome.Sender.{
  Sender, one_second, min_pacing_rate, set_next_send_time, is_time_to_send_next_packet,
  make_packet_and_send, send_packet,
}
use gcc_chrome.Sender.Told.{
  Limits, Paces, on_packet_received-rr_Limits, on_packet_received-remb_Limits,
}
use gcc_chrome.Receiver as R
use gcc_chrome.Receiver.{Receiver}
use gcc_chrome.Receiver.Messages.{Messages}
use gcc_chrome.Receiver.Reports.{IsSound, on_packet_received-serialize_data}
use gcc_chrome.Session.{waiting, first, others}
use gcc_chrome.Session.Lists.{InFlight, InFlight-le, IsTold}
use mathlib.Core.Path.{subst}

-- The rate is one that the receiver has sent, if it is not 0.
abbrev pub IsHeard : List Text → DataRate → Type 0
IsHeard told rate = (rate ≡ pos 0) ⊎ Mem (serialize_remb (record { bandwidth = rate })) told

module _ {ℓ} {F : Type ℓ} ⦃fl : Double F⦄ where
  -- The packet that is sent, if one is.
  abbrev pub Sends : Sender F → Timestamp → Sender F → List Text → Type 0
  Sends s now r texts =
      ((texts ≡ []) × (r.recent_packet_number ≡ s.recent_packet_number))
      ⊎ ((p : DataPacket) × (texts ≡ serialize_data p ∷ [])
          × (p.sequence_number ≡ s.recent_packet_number + 1)
          × (r.recent_packet_number ≡ s.recent_packet_number + 1)
          × (p.send_time ≡ now)
          × (p.size ≡ default_packet_size))

  set_next_send_time-ok :
      (s : Sender F) (now : Timestamp)
      → 0 < s.pacing_rate
      → (t : Timestamp) × (set_next_send_time F s now ≡ ok (record s { next_send_timestamp = t }))
  unfolding set_next_send_time
  set_next_send_time-ok s now paces =
      let positive : ltb 0 s.pacing_rate ≡ true = ground arith in
      let t : Timestamp = int64 (
        now
        +ℤ fl.to_int (
            fl.div (fl.of_int (pos (default_packet_size * 8 * one_second)))
              (fl.of_int (pos s.pacing_rate)))) in
      (t, rw positive refl)

  -- A call of SendPacket succeeds, and sends at most one packet, the next one.
  pub send_packet-Sends :
      (s : Sender F) (now then_now make_now : Timestamp) (rate : DataRate)
      → s.recent_packet_number + 1 < 2 ^ 64
      → Limits s rate
      → Paces s rate
      → (r : Sender F) × (texts : List Text) × (send_packet F s now then_now make_now
          ≡ ok (r, texts))
        × Sends s make_now r texts
        × Limits r rate
        × Paces r rate
  unfolding send_packet is_time_to_send_next_packet make_packet_and_send make_data_packet
  send_packet-Sends s now then_now make_now rate few limits paces =
      elim (Bool-cases (ltb_ℤ s.next_send_timestamp now)) [
        | inl due ↦
            let (t, e) = set_next_send_time-ok s then_now (omega (arith, paces.0)) in
            let due_state = record s { next_send_timestamp = t } in
            let done = make_packet_and_send F due_state make_now in
            let number : (s.recent_packet_number + 1) % 2 ^ 64 ≡ s.recent_packet_number + 1 =
              omega arith in
            let p : DataPacket = record (make_data_packet s.recent_packet_number).0 {
              send_time = make_now;
            } in
            (
              done.0,
              done.1 ∷ [],
              rw (due, e) refl,
              inr (p, refl, number, number, refl, refl),
              limits,
              paces,
            )
        | inr early ↦ (s, [], rw early refl, inl (refl, refl), limits, paces)
      ]

  receive_packet-rr :
      (s : Sender F) (p : RrPacket) (now : Timestamp)
      → S.receive_packet s (length (serialize_rr p)) (serialize_rr p) now
        ≡ S.on_packet_received s (serialize_rr p) now
  unfolding S.receive_packet serialize_rr packet_type_to_string
  receive_packet-rr s p now = ground arith

  receive_packet-remb :
      (s : Sender F) (p : RembPacket) (now : Timestamp)
      → S.receive_packet s (length (serialize_remb p)) (serialize_remb p) now
        ≡ S.on_packet_received s (serialize_remb p) now
  unfolding S.receive_packet serialize_remb packet_type_to_string
  receive_packet-remb s p now = ground arith

  -- The sender handles the report that waits longest, if there is one.
  pub receive_packet-Limits :
      (s : Sender F) (rate : DataRate) (told reports : List Text) (now : Timestamp)
      → Limits s rate
      → Paces s rate
      → IsHeard told rate
      → All (IsTold told) reports
      → (r : Sender F) × (S.receive_packet s (length (waiting reports)) (waiting reports) now
          ≡ ok r)
        × (r.recent_packet_number ≡ s.recent_packet_number)
        × (rate' : DataRate) × Limits r rate'
        × Paces r rate'
        × IsHeard told rate'
  unfolding S.receive_packet
  receive_packet-Limits s rate told [] now limits paces heard h =
      (s, refl, refl, rate, limits, paces, heard)
  receive_packet-Limits s rate told (t ∷ ts) now limits paces heard ((m, inl (p, e)), h) =
      let (r, taken, same, limits', paces') = on_packet_received-rr_Limits s p now rate limits in
      (r, rw e (receive_packet-rr s p now ∙ taken), same, rate, limits', paces', heard)
  receive_packet-Limits s rate told (t ∷ ts) now limits paces heard ((m, inr (rate', e)), h) =
      let (r, taken, same, limits', paces') =
        on_packet_received-remb_Limits s rate rate' now limits in
      (
        r,
        rw e (receive_packet-remb s (record { bandwidth = rate' }) now ∙ taken),
        same,
        rate',
        limits',
        paces',
        inr (subst (λ u. Mem u told) e m),
      )

  -- The receiver handles the data packet that waits longest, if there is one.
  pub receive_packet-IsSound :
      (s : Receiver F) (n t m : ℕ) (packets : List Text) (feedback_time receive_time : ℕ)
      → IsSound s n (pos t)
      → InFlight n packets m
      → m < 10 ^ 10
      → t ≤ receive_time
      → receive_time < 2 ^ 61
      → (r : Receiver F) × (texts : List Text) × (R.receive_packet s
            (first packets)
            (pos feedback_time)
            (pos receive_time)
          ≡ ok (r, texts))
        × (n' : ℕ) × (t' : ℕ) × (t' ≤ receive_time)
        × IsSound r n' (pos t')
        × InFlight n' (others packets) m
        × Messages s.last_remb_rate texts r.last_remb_rate
  unfolding R.receive_packet
  receive_packet-IsSound s n t m [] feedback_time receive_time sound flight few later clock =
      (s, [], refl, n, t, later, sound, flight, refl)
  receive_packet-IsSound s n t m (text ∷ texts) feedback_time receive_time sound
        (p, e, newer, time, size, flight) few later clock =
      let fits : FitsNumber p.sequence_number =
        omega (arith, InFlight-le p.sequence_number texts m flight, few) in
      let (r, told, taken, sound', _, said) =
        on_packet_received-serialize_data s n (pos t) p (pos feedback_time) (pos receive_time) sound
          (newer, fits, time, size, (refl, clock), later) in
      (r, told, rw e taken, p.sequence_number, receive_time, omega arith, sound', flight, said)
