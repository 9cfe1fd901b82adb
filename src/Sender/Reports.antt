-- ===== src/Sender/Reports.antt =====
-- What the receiver's reports do to the sender.
use gcc_chrome.Common.{ℕ, ◌+◌, ◌%◌, ◌^◌, ◌<◌, ◌≤◌, ◌≡◌, refl, ap, ◌∙◌, true, false, arith}
use Prim.Native.Nat.{max}
use gcc_chrome.Common.Double.{Double}
use gcc_chrome.Common.Int.{pos, to_u64}
use gcc_chrome.Common.Result.{ok}
use gcc_chrome.Unit.{Timestamp, is_zero}
use gcc_chrome.SendSide.{SendSide}
use gcc_chrome.SendSide.Target.{target_rate, update_receiver_estimate, apply_target_limits}
use gcc_chrome.SendSide.Estimate.{update_packets_lost}
use gcc_chrome.SendSide.Limits.{update_target_bitrate-keeps}
use gcc_chrome.Packet.{
  RrPacket, RembPacket, new_rr_packet, new_remb_packet, serialize_rr, serialize_remb,
  un_serialize_rr, un_serialize_remb,
}
use gcc_chrome.Packet.RoundTrip.{
  FitsTime, FitsNumber, un_serialize-serialize_rr, un_serialize-serialize_remb,
  get_type-serialize_rr, get_type-serialize_remb,
}
use gcc_chrome.Sender.{
  Sender, min_pacing_rate, on_transport_loss_report, on_remote_bitrate_report,
  on_rr_packet_received, on_remb_packet_received, set_pacing_rate, on_packet_of_type,
  on_packet_received,
}

module _ {ℓ} (F : Type ℓ) ⦃fl : Double F⦄ where
  pub set_pacing_rate-keeps :
      (s : Sender F)
      → let r = set_pacing_rate s in
        (r.bandwidth_estimation ≡ s.bandwidth_estimation)
        × (r.recent_rr_packet ≡ s.recent_rr_packet)
        × (min_pacing_rate ≤ r.pacing_rate)
        × (r.packet_feedback_only ≡ s.packet_feedback_only)
        × (r.pacing_rate ≡ max (to_u64 (target_rate s.bandwidth_estimation)) min_pacing_rate)
  unfolding set_pacing_rate
  set_pacing_rate-keeps s = ground arith

  pub rr_handled :
      (s : Sender F) (p q : RrPacket) (now : Timestamp)
      → un_serialize_rr (serialize_rr p) new_rr_packet ≡ ok q
      → on_packet_received s (serialize_rr p) now
        ≡ ok (set_pacing_rate (on_transport_loss_report (record s { recent_rr_packet = q }) q now))
  unfolding on_packet_received on_packet_of_type on_rr_packet_received
  rr_handled s p q now e = rw (get_type-serialize_rr p, e) refl

  pub remb_handled :
      (s : Sender F) (p q : RembPacket) (now : Timestamp)
      → un_serialize_remb (serialize_remb p) new_remb_packet ≡ ok q
      → on_packet_received s (serialize_remb p) now
        ≡ ok (set_pacing_rate (on_remote_bitrate_report s q now))
  unfolding on_packet_received on_packet_of_type on_remb_packet_received
  remb_handled s p q now e = rw (get_type-serialize_remb p, e) refl

  loss_report-counts :
      (s : Sender F) (p : RrPacket) (now : Timestamp)
      → s.packet_feedback_only ≡ false
      → p.packets_received_delta + p.packets_lost_delta < 2 ^ 64
      → let r = on_transport_loss_report s p now in
        (r.bandwidth_estimation
          ≡ update_packets_lost s.bandwidth_estimation p.packets_lost_delta
              (p.packets_received_delta + p.packets_lost_delta)
              now)
        × (r.recent_rr_packet ≡ s.recent_rr_packet)
  unfolding on_transport_loss_report
  loss_report-counts s p now only small =
      let same : (p.packets_received_delta + p.packets_lost_delta) % 2 ^ 64
          ≡ p.packets_received_delta + p.packets_lost_delta =
        omega arith in
      rw (only, same) (refl, refl)

  remote_report-told :
      (s : Sender F) (p : RembPacket) (now : Timestamp) (rate : ℕ)
      → s.packet_feedback_only ≡ false
      → p.bandwidth ≡ pos rate
      → (on_remote_bitrate_report s p now).bandwidth_estimation
        ≡ update_receiver_estimate s.bandwidth_estimation now (pos rate)
  unfolding on_remote_bitrate_report
  remote_report-told s p now rate only e = rw (only, e) refl

  -- Only the limit, the target and the log change.
  receiver_estimate-limits :
      (s : SendSide F) (now : Timestamp) (rate least : ℕ)
      → s.receiver_limit_caps_only ≡ true
      → s.min_bitrate_configured ≡ pos least
      → least < 2 ^ 63
      → 0 < rate
      → rate < 10 ^ 10
      → to_u64 (target_rate (update_receiver_estimate s now (pos rate))) ≤ max rate least
  unfolding update_receiver_estimate apply_target_limits target_rate to_u64 is_zero
  receiver_estimate-limits s now rate least caps floor small positive fits =
      let limited_sender = record s { receiver_limit = pos rate } in
      let keeps = update_target_bitrate-keeps limited_sender s.current_target now in
      ground (arith, keeps, caps, floor)

  -- A loss report that the receiver wrote, with times of at most 15 digits and counts of at most 10,
  -- reaches the sender's estimator with its counts: the lost packets, and all that it covers.
  pub on_packet_received-serialize_rr :
      (s : Sender F) (p : RrPacket) (now : Timestamp)
      → s.packet_feedback_only ≡ false
      → FitsTime p.start_time
      → FitsTime p.end_time
      → FitsNumber p.packets_lost_delta
      → FitsNumber p.packets_received_delta
      → (r : Sender F) × (on_packet_received s (serialize_rr p) now ≡ ok r)
        × (r.bandwidth_estimation
            ≡ update_packets_lost s.bandwidth_estimation p.packets_lost_delta
                (p.packets_received_delta + p.packets_lost_delta)
                now)
        × (r.recent_rr_packet ≡ p)
        × (min_pacing_rate ≤ r.pacing_rate)
  on_packet_received-serialize_rr s p now only a b c d =
      let heard = record s { recent_rr_packet = p } in
      let (counts, same) = loss_report-counts heard p now only (omega arith) in
      let reported = on_transport_loss_report heard p now in
      let (e, e', least, _, _) = set_pacing_rate-keeps reported in
      (
        set_pacing_rate reported,
        rr_handled s p p now (un_serialize-serialize_rr p new_rr_packet a b c d),
        e ∙ counts,
        e' ∙ same,
        least,
      )

  -- A bit rate that the receiver wrote, of at most 10 digits and not 0, reaches the sender: it then
  -- paces its packets at no more than that rate, than the configured minimum, or than 100 kbps,
  -- whichever is the largest, and at no less than 100 kbps.
  pub on_packet_received-serialize_remb :
      (s : Sender F) (p : RembPacket) (now : Timestamp) (rate least : ℕ)
      → s.packet_feedback_only ≡ false
      → s.bandwidth_estimation.receiver_limit_caps_only ≡ true
      → s.bandwidth_estimation.min_bitrate_configured ≡ pos least
      → least < 2 ^ 63
      → p.bandwidth ≡ pos rate
      → 0 < rate
      → rate < 10 ^ 10
      → (r : Sender F) × (on_packet_received s (serialize_remb p) now ≡ ok r)
        × (r.pacing_rate ≤ max (max rate least) min_pacing_rate)
        × (min_pacing_rate ≤ r.pacing_rate)
  on_packet_received-serialize_remb s p now rate least only caps floor small e positive fits =
      let told = on_remote_bitrate_report s p now in
      let (_, _, above, _, exact) = set_pacing_rate-keeps told in
      let limit =
        receiver_estimate-limits s.bandwidth_estimation now rate least caps floor small positive
          fits in
      (
        set_pacing_rate told,
        remb_handled s p p now
            (un_serialize-serialize_remb p new_remb_packet (ground (arith, e, fits))),
        omega (
          arith,
          exact,
          limit,
          ap (λ b. to_u64 (target_rate b)) (remote_report-told s p now rate only e),
        ),
        above,
      )
