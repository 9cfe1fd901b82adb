-- ===== src/BothEnds.antt =====
-- The two programs together, chrome_gcc/src/receiver.cc and sender.cc: the texts that the receiver sends
-- come to the sender, in their order.
mod Tests
use gcc_chrome.Common.{
  ℕ, suc, ◌+◌, ◌%◌, ◌^◌, ◌≤◌, ◌≡◌, refl, ap, ◌∙◌, true, false, inl, inr, Bool, some, List, [], ◌∷◌,
  if◌then◌else◌, arith,
}
use Prim.Native.Nat.{max}
use mathlib.Core.Path.{subst}
use gcc_chrome.Common.Double.{Double}
use gcc_chrome.Common.Int.{ℤ, pos, to_u64}
use gcc_chrome.Common.Result.{Result, ok, ◌>>=◌}
use gcc_chrome.Unit.{Timestamp, DataRate, is_zero, plus_infinity}
use gcc_chrome.Packet.{
  Text, ParseError, DataPacket, RrPacket, RembPacket, new_rr_packet, new_remb_packet, serialize_rr,
  serialize_remb,
}
use gcc_chrome.Packet.Number.{shown}
use gcc_chrome.Packet.RoundTrip.{
  read_rate, read_report, un_serialize_rr-read_report, un_serialize_remb-read_rate,
}
use gcc_chrome.SendSide.{SendSide, new_send_side, min_bitrate}
use gcc_chrome.SendSide.Target.{
  no_limit_if_zero, target_rate, update_receiver_estimate, apply_target_limits,
}
use gcc_chrome.SendSide.Limits.{update_target_bitrate-keeps}
use gcc_chrome.SendSide.Told.{update_packets_lost-SameLimit}
use gcc_chrome.Sender.{
  Sender, started_sender, min_pacing_rate, on_transport_loss_report, on_remote_bitrate_report,
  set_pacing_rate, on_packet_received,
}
use gcc_chrome.Sender.Reports.{set_pacing_rate-keeps, rr_handled, remb_handled}
use gcc_chrome.Sender.Told.{
  heard_limit, Limits, Paces, on_packet_received-rr_Limits, on_packet_received-remb_Limits,
  started_sender-Limits,
}
use gcc_chrome.Controller.{Config}
use gcc_chrome.Receiver.{Receiver, new_receiver}
use gcc_chrome.Receiver.Messages.{Messages}
use gcc_chrome.Receiver.Reports.{Arrives, run, run-total, new_receiver-IsSound}

module _ {ℓ} {F : Type ℓ} ⦃fl : Double F⦄ where
  -- Texts that come one after the other, each at its time.
  pub hear : Sender F → (ℕ → Timestamp) → List Text → Result ParseError (Sender F)
  hear s now [] = ok s
  hear s now (t ∷ ts) = on_packet_received s t (now 0) >>= λ r. hear r (λ k. now (suc k)) ts

  hear-Limits :
      (s : Sender F) (now : ℕ → Timestamp) (before after : DataRate) (texts : List Text)
      → Limits s before
      → Paces s before
      → Messages before texts after
      → (r : Sender F) × (hear s now texts ≡ ok r) × Limits r after × Paces r after
  unfolding hear
  hear-Limits s now before after [] h p e =
      (s, refl, subst (λ r. Limits s r) e h, subst (λ r. Paces s r) e p)
  hear-Limits s now before after (t ∷ ts) h p (inl ((report, e), m)) =
      let later : ℕ → Timestamp = λ k. now (suc k) in
      let (q, taken, _, limits, paces) = on_packet_received-rr_Limits s report (now 0) before h in
      let (r, e', limits', paces') = hear-Limits q later before after ts limits paces m in
      (r, rw (e, taken) e', limits', paces')
  hear-Limits s now before after (t ∷ ts) h p (inr (rate, e, m)) =
      let later : ℕ → Timestamp = λ k. now (suc k) in
      let (q, taken, _, limits, paces) = on_packet_received-remb_Limits s before rate (now 0) h in
      let (r, e', limits', paces') = hear-Limits q later rate after ts limits paces m in
      (r, rw (e, taken) e', limits', paces')

module _ {ℓ} (F : Type ℓ) ⦃fl : Double F⦄ where
  -- A receiver that is made with a starting rate handles data packets that fit their fields, whose
  -- numbers grow and whose times do not fall, and a new sender handles all texts that the receiver
  -- sends of them, at whatever times they come, without an exception. In the end the sender's limit is
  -- the rate that the receiver sent last, or none if that is 0 or has more than 10 digits, and it
  -- paces its packets at no less than 100 kbps and no more than that limit, or than 100 kbps.
  pub hear-run :
      (config : Config F) (has_predictor in_alr : Bool) (rate : DataRate)
      (ps : List (DataPacket × Timestamp × Timestamp)) (now : ℕ → Timestamp)
      → config.constraints.starting_rate ≡ some rate
      → Arrives 0 (pos 0) ps
      → (s : Receiver F) × (new_receiver config has_predictor in_alr ≡ some s)
        × (r : Receiver F) × (texts : List Text) × (run s ps ≡ ok (r, texts))
        × (t : Sender F) × (hear started_sender now texts ≡ ok t)
        × (t.bandwidth_estimation.receiver_limit ≡ heard_limit r.last_remb_rate)
        × (min_pacing_rate ≤ t.pacing_rate)
        × (t.pacing_rate ≤ max (to_u64 (heard_limit r.last_remb_rate)) min_pacing_rate)
  hear-run config has_predictor in_alr rate ps now given a =
      let (s, e, sound, none_sent) =
        new_receiver-IsSound F config has_predictor in_alr rate given in
      let (r, texts, e', _, _, said) = run-total s 0 (pos 0) ps sound a in
      let (starts, paces) = started_sender-Limits F in
      let (t, e'', limits, paces') =
        hear-Limits started_sender now (pos 0) r.last_remb_rate texts starts paces
          (subst (λ b. Messages b texts r.last_remb_rate) none_sent said) in
      (s, e, r, texts, e', t, e'', limits.1, paces'.0, paces'.1)
