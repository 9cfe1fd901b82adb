-- ===== src/Receiver/Reports.antt =====
-- The receiver on the packets that the sender writes.
use gcc_chrome.Common.{
  ℕ, ◌*◌, ◌≤◌, ◌<◌, ◌≡◌, ◌∙◌, ap, sym, not, refl, Bool, true, false, if-elim, some, List, [], ◌∷◌,
  ◌++◌, arith,
}
use gcc_chrome.Common.Double.{Double}
use gcc_chrome.Common.Int.{ℤ, pos, pos_part, eqb_ℤ}
use gcc_chrome.Common.Lists.{length, length-append}
use gcc_chrome.Common.Result.{Result, ok, ◌>>=◌}
use gcc_chrome.Unit.{Timestamp, DataRate, is_zero}
use gcc_chrome.Unit.Exact.{IsClock}
use gcc_chrome.Packet.{Text, DataPacket, new_data_packet, serialize_data}
use gcc_chrome.Packet.RoundTrip.{
  FitsNumber, FitsTime, get_type-serialize_data, un_serialize-serialize_data,
}
use gcc_chrome.LossCollection.{ReceiverLossCollection, LossReportUpdate, new_collection}
use gcc_chrome.LossCollection as Loss
use gcc_chrome.LossCollection.Invariant.{Between}
use gcc_chrome.LossCollection.Stream.{
  on_transport_packet_feedback-Advances, one_packet, new_collection-Between,
}
use gcc_chrome.Acknowledged.{acknowledged_bitrate}
use gcc_chrome.DelayBased
use gcc_chrome.Controller.{Controller, Config, started, new_controller}
use gcc_chrome.Controller.Reach.{IsWell, started-IsWell, on_transport_packets_feedback-total}
use gcc_chrome.Receiver.Messages.{
  Messages, Messages-append, loss_texts-Messages, tell_delay-Messages,
}
use gcc_chrome.Receiver.{
  Receiver, Fault, new_receiver, packet_result, message, on_delay_base_bwe_updated, tell_delay,
  remember_ack, loss_texts, on_message, on_data_packet_received, on_packet_received,
  on_packet_of_type,
}

-- A data packet that comes after those, and that fits its fields.
abbrev pub Follows : ℕ → ℤ → DataPacket → Timestamp → Type 0
Follows n t p receive_time =
    (n < p.sequence_number)
    × FitsNumber p.sequence_number
    × FitsTime p.send_time
    × FitsNumber p.size
    × IsClock receive_time
    × (pos_part t ≤ pos_part receive_time)

-- The numbers of the packets grow, and the times at which they come do not fall.
abbrev pub Arrives : ℕ → ℤ → List (DataPacket × Timestamp × Timestamp) → Type 0
Arrives n t [] = Unit
Arrives n t ((p, feedback_time, receive_time) ∷ ps) =
    Follows n t p receive_time × Arrives p.sequence_number receive_time ps

same_rate : (a b : DataRate) → not (eqb_ℤ a b) ≡ false → a ≡ b
same_rate a b h = ground arith

length-loss_texts : (result : LossReportUpdate) → length (loss_texts result) ≤ 1
unfolding loss_texts
length-loss_texts result = ground arith

module _ {ℓ} {F : Type ℓ} where
  -- The state and the texts after a result: its rate is the last one that was sent, if it updates the
  -- estimate.
  abbrev pub Tells : Receiver F → DelayBased.Result → Receiver F × List Text → Type ℓ
  Tells s result (r, texts) =
      (result.updated ≡ true → r.last_remb_rate ≡ result.target_bitrate)
      × (r.gcc_controler ≡ s.gcc_controler)
      × (r.loss_collection ≡ s.loss_collection)
      × (length texts ≤ 1)

  on_delay_base_bwe_updated-Tells :
      (s : Receiver F) (result : DelayBased.Result)
      → Tells s result (on_delay_base_bwe_updated s result)
  unfolding on_delay_base_bwe_updated
  on_delay_base_bwe_updated-Tells s result =
      if-elim (Tells s result) (is_zero s.last_remb_rate)
        (λ _. ((λ _. refl), refl, refl, omega arith))
        (λ _.
          if-elim (Tells s result) (not (eqb_ℤ s.last_remb_rate result.target_bitrate))
            (λ _. ((λ _. refl), refl, refl, omega arith))
            (λ same. ((λ _. same_rate _ _ same), refl, refl, omega arith)))

  tell_delay-Tells : (s : Receiver F) → Tells s s.gcc_controler.recent_result (tell_delay s)
  unfolding tell_delay
  tell_delay-Tells s =
      let result = s.gcc_controler.recent_result in
      if-elim (Tells s result) result.updated (λ _. on_delay_base_bwe_updated-Tells s result)
        (λ idle. ((λ u. cc (idle, u)), refl, refl, omega arith))

module _ {ℓ} {F : Type ℓ} ⦃fl : Double F⦄ where
  -- After packets up to the number `n`, the last of which came at `t`.
  pub record IsSound (s : Receiver F) (n : ℕ) (t : ℤ) : Type 0 where
    pub well : IsWell s.gcc_controler
    pub between : Between s.loss_collection n t
    pub clock : IsClock t
    pub told :
        s.gcc_controler.recent_result.updated ≡ true
        → s.last_remb_rate ≡ s.gcc_controler.recent_result.target_bitrate

  on_message_lem :
      (s : Receiver F) (n : ℕ) (t : ℤ) (p : DataPacket) (feedback_time receive_time : Timestamp)
      → IsSound s n t
      → Follows n t p receive_time
      → (r : Receiver F) × (texts : List Text) × (on_message s
            (message p feedback_time receive_time)
          ≡ ok (r, texts))
        × IsSound r p.sequence_number receive_time
        × (length texts ≤ 2)
        × Messages s.last_remb_rate texts r.last_remb_rate
  unfolding on_message message
  on_message_lem s n t p feedback_time receive_time h (newer, fits, _, _, clock, later) =
      let msg = message p feedback_time receive_time in
      let (c, e, well) = on_transport_packets_feedback-total s.gcc_controler msg h.well in
      let known = record s { gcc_controler = c } in
      let (rate, same_controller, same_loss, few) = tell_delay-Tells known in
      let told = tell_delay known in
      let (l, result, e', between, _) =
        on_transport_packet_feedback-Advances F s.loss_collection n t (packet_result p receive_time)
          h.between h.clock newer (omega arith) clock later in
      let taken = one_packet F s.loss_collection l (packet_result p receive_time) result e' in
      let taken' : Loss.on_transport_packets_feedback F told.0.loss_collection msg.packet_feedbacks
          ≡ ok (l, result) =
        rw same_loss taken in
      let acked = remember_ack told.0 (acknowledged_bitrate c.acknowledged) in
      (
        record acked { loss_collection = l },
        told.1 ++ loss_texts result,
        simp (e, taken', on_message),
        record {
          well = rw same_controller well;
          between = between;
          clock = clock;
          told = λ u.
              rate (ap (λ (k : Controller F). k.recent_result.updated) (sym same_controller) ∙ u)
              ∙ ap (λ (k : Controller F). k.recent_result.target_bitrate) (sym same_controller);
        },
        omega (arith, few, length-append told.1 (loss_texts result), length-loss_texts result),
        Messages-append s.last_remb_rate told.0.last_remb_rate told.0.last_remb_rate told.1
            (loss_texts result) (tell_delay-Messages known)
            (loss_texts-Messages result told.0.last_remb_rate),
      )

  -- A data packet that the sender wrote, that fits its fields and that comes after those before, is
  -- handled without a fault, and at most two texts are sent.
  pub on_packet_received-serialize_data :
      (s : Receiver F) (n : ℕ) (t : ℤ) (p : DataPacket) (feedback_time receive_time : Timestamp)
      → IsSound s n t
      → Follows n t p receive_time
      → (r : Receiver F) × (texts : List Text) × (on_packet_received s
            (serialize_data p)
            feedback_time
            receive_time
          ≡ ok (r, texts))
        × IsSound r p.sequence_number receive_time
        × (length texts ≤ 2)
        × Messages s.last_remb_rate texts r.last_remb_rate
  unfolding on_packet_received on_packet_of_type on_data_packet_received
  on_packet_received-serialize_data s n t p feedback_time receive_time h f =
      let (_, fits_number, fits_time, fits_size, _, _) = f in
      let (r, texts, e, sound, few, said) = on_message_lem s n t p feedback_time receive_time h f in
      let tag = get_type-serialize_data p in
      let read = un_serialize-serialize_data p new_data_packet fits_number fits_time fits_size in
      (
        r,
        texts,
        simp (tag, read, e, on_packet_received, on_packet_of_type, on_data_packet_received),
        sound,
        few,
        said,
      )

  -- The texts of data packets, each with the times of the two calls of `Now` while it is handled.
  pub run :
      Receiver F → List (DataPacket × Timestamp × Timestamp) → Result Fault (Receiver F × List Text)
  run s [] = ok (s, [])
  run s ((p, feedback_time, receive_time) ∷ ps) =
      on_packet_received s (serialize_data p) feedback_time receive_time >>= λ r.
      run r.0 ps >>= λ rest. ok (rest.0, r.1 ++ rest.1)

  abbrev pub IsTold : Receiver F → Type 0
  IsTold s =
      s.gcc_controler.recent_result.updated ≡ true
      → s.last_remb_rate ≡ s.gcc_controler.recent_result.target_bitrate

  pub run-total :
      (s : Receiver F) (n : ℕ) (t : ℤ) (ps : List (DataPacket × Timestamp × Timestamp))
      → IsSound s n t
      → Arrives n t ps
      → (r : Receiver F) × (texts : List Text) × (run s ps ≡ ok (r, texts))
        × IsTold r
        × (length texts ≤ 2 * length ps)
        × Messages s.last_remb_rate texts r.last_remb_rate
  unfolding run
  run-total s n t [] h a = (s, [], refl, h.told, omega arith, refl)
  run-total s n t ((p, feedback_time, receive_time) ∷ ps) h (f, a) =
      let (q, texts, e, sound, few, said) =
        on_packet_received-serialize_data s n t p feedback_time receive_time h f in
      let (r, rest, e', told, fewer, said') =
        run-total q p.sequence_number receive_time ps sound a in
      (
        r,
        texts ++ rest,
        rw (e, e') refl,
        told,
        omega (arith, few, fewer, length-append texts rest),
        Messages-append s.last_remb_rate q.last_remb_rate r.last_remb_rate texts rest said said',
      )

module _ {ℓ} (F : Type ℓ) ⦃fl : Double F⦄ where
  -- The receiver starts sound.
  pub new_receiver-IsSound :
      (config : Config F) (has_predictor in_alr : Bool) (rate : DataRate)
      → config.constraints.starting_rate ≡ some rate
      → (s : Receiver F) × (new_receiver config has_predictor in_alr ≡ some s)
        × IsSound s 0 (pos 0)
        × (s.last_remb_rate ≡ pos 0)
  unfolding new_receiver new_controller started
  new_receiver-IsSound config has_predictor in_alr rate given =
      let c = started config rate has_predictor in_alr in
      let s : Receiver F = record {
        gcc_controler = c;
        loss_collection = new_collection;
        last_remb_rate = pos 0;
        last_ack_rate = 0;
      } in
      let sound : IsSound s 0 (pos 0) = record {
        well = started-IsWell config rate has_predictor in_alr;
        between = new_collection-Between;
        clock = omega arith;
        told = λ u. cc;
      } in
      (s, rw (given, new_receiver, new_controller) refl, sound, refl)

  -- A receiver that is made with a starting rate handles the data packets that a sender writes, when
  -- they fit their fields, their numbers grow and their times do not fall, without an exception, a
  -- failed assertion or an access outside a vector; the byte that number_to_fix_len_string writes past its
  -- buffer is taken to be free. It sends at most two texts for each packet, and
  -- if the last one updated the delay-based estimate, the rate that it sent last is that estimate.
  pub packets_complete :
      (config : Config F) (has_predictor in_alr : Bool) (rate : DataRate)
      (ps : List (DataPacket × Timestamp × Timestamp))
      → config.constraints.starting_rate ≡ some rate
      → Arrives 0 (pos 0) ps
      → (s : Receiver F) × (new_receiver config has_predictor in_alr ≡ some s)
        × (r : Receiver F) × (texts : List Text) × (run s ps ≡ ok (r, texts))
        × IsTold r
        × (length texts ≤ 2 * length ps)
  packets_complete config has_predictor in_alr rate ps given a =
      let (s, e, sound, _) = new_receiver-IsSound config has_predictor in_alr rate given in
      let (r, texts, e', told, few, _) = run-total s 0 (pos 0) ps sound a in
      (s, e, r, texts, e', told, few)
