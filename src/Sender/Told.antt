-- ===== src/Sender/Told.antt =====
-- What the sender makes of the texts that the receiver sends: its limit and its pace.
use gcc_chrome.Common.{◌+◌, ◌%◌, ◌^◌, ◌≤◌, ◌≡◌, ap, ◌∙◌, true, false, arith}
use Prim.Native.Nat.{max}
use gcc_chrome.Common.Double.{Double}
use gcc_chrome.Common.Int.{pos, to_u64}
use gcc_chrome.Common.Result.{ok}
use gcc_chrome.Unit.{Timestamp, DataRate, is_zero}
use gcc_chrome.Packet.{
  RrPacket, RembPacket, new_rr_packet, new_remb_packet, serialize_rr, serialize_remb,
}
use gcc_chrome.Packet.Number.{shown}
use gcc_chrome.Packet.RoundTrip.{
  read_rate, read_report, un_serialize_rr-read_report, un_serialize_remb-read_rate,
}
use gcc_chrome.SendSide.{SendSide, new_send_side, min_bitrate}
use gcc_chrome.SendSide.Target.{
  no_limit_if_zero, target_rate, update_receiver_estimate, apply_target_limits,
}
use gcc_chrome.SendSide.Limits.{update_target_bitrate-keeps}
use gcc_chrome.SendSide.Told.{update_packets_lost-SameLimit}
use gcc_chrome.Sender.{
  Sender, started_sender, min_pacing_rate, on_transport_loss_report, on_remote_bitrate_report,
  set_pacing_rate, on_packet_received,
}
use gcc_chrome.Sender.Reports.{set_pacing_rate-keeps, rr_handled, remb_handled}

-- The limit that the sender takes from a rate that was sent; 0 stands for none.
abbrev pub heard_limit : DataRate → DataRate
heard_limit rate = no_limit_if_zero (read_rate rate)

module _ {ℓ} {F : Type ℓ} ⦃fl : Double F⦄ where
  -- The sender takes `rate` for the limit, if its minimum is the initial one.
  abbrev pub Limits : Sender F → DataRate → Type 0
  Limits s rate =
      (s.packet_feedback_only ≡ false)
      × (s.bandwidth_estimation.receiver_limit ≡ heard_limit rate)
      × (s.bandwidth_estimation.receiver_limit_caps_only ≡ true)
      × (s.bandwidth_estimation.min_bitrate_configured ≡ min_bitrate)

  -- And it paces accordingly.
  abbrev pub Paces : Sender F → DataRate → Type 0
  Paces s rate =
      (min_pacing_rate ≤ s.pacing_rate)
      × (s.pacing_rate ≤ max (to_u64 (heard_limit rate)) min_pacing_rate)

  target_rate-limit :
      (s : SendSide F) (rate : DataRate)
      → s.receiver_limit ≡ heard_limit rate
      → s.receiver_limit_caps_only ≡ true
      → s.min_bitrate_configured ≡ min_bitrate
      → to_u64 (target_rate s) ≤ max (to_u64 (heard_limit rate)) min_pacing_rate
  unfolding target_rate to_u64 is_zero shown
  target_rate-limit s rate limit caps floor = ground arith

  set_pacing_rate-Paces :
      (s : Sender F) (rate : DataRate)
      → Limits s rate
      → Limits (set_pacing_rate s) rate × Paces (set_pacing_rate s) rate
  set_pacing_rate-Paces s rate (only, limit, caps, floor) =
      let (e, _, least, same, exact) = set_pacing_rate-keeps F s in
      let bound = target_rate-limit s.bandwidth_estimation rate limit caps floor in
      let same_only = same ∙ only in
      (
        (
          same_only,
          ap (λ (b : SendSide F). b.receiver_limit) e ∙ limit,
          ap (λ (b : SendSide F). b.receiver_limit_caps_only) e ∙ caps,
          ap (λ (b : SendSide F). b.min_bitrate_configured) e ∙ floor,
        ),
        (least, omega (arith, exact, bound)),
      )

  loss_report-Limits :
      (s : Sender F) (p : RrPacket) (now : Timestamp) (rate : DataRate)
      → Limits s rate
      → Limits (on_transport_loss_report (record s { recent_rr_packet = p }) p now) rate
  unfolding on_transport_loss_report
  loss_report-Limits s p now rate h = ground (
    arith,
    update_packets_lost-SameLimit s.bandwidth_estimation p.packets_lost_delta
        ((p.packets_received_delta + p.packets_lost_delta) % 2 ^ 64) now,
  )

  rate_report-Limits :
      (s : Sender F) (rate told : DataRate) (now : Timestamp)
      → Limits s rate
      → Limits (on_remote_bitrate_report s (record { bandwidth = read_rate told }) now) told
  unfolding on_remote_bitrate_report update_receiver_estimate apply_target_limits
  rate_report-Limits s rate told now h = ground (
    arith,
    update_target_bitrate-keeps
        (record s.bandwidth_estimation { receiver_limit = heard_limit told })
        s.bandwidth_estimation.current_target now,
  )

  loss_report-number :
      (s : Sender F) (p : RrPacket) (now : Timestamp)
      → (set_pacing_rate (on_transport_loss_report s p now)).recent_packet_number
        ≡ s.recent_packet_number
  unfolding set_pacing_rate on_transport_loss_report
  loss_report-number s p now = ground arith

  rate_report-number :
      (s : Sender F) (p : RembPacket) (now : Timestamp)
      → (set_pacing_rate (on_remote_bitrate_report s p now)).recent_packet_number
        ≡ s.recent_packet_number
  unfolding set_pacing_rate on_remote_bitrate_report
  rate_report-number s p now = ground arith

  -- Any loss report that the receiver wrote is handled, and leaves the limit.
  pub on_packet_received-rr_Limits :
      (s : Sender F) (p : RrPacket) (now : Timestamp) (rate : DataRate)
      → Limits s rate
      → (r : Sender F) × (on_packet_received s (serialize_rr p) now ≡ ok r)
        × (r.recent_packet_number ≡ s.recent_packet_number)
        × Limits r rate
        × Paces r rate
  on_packet_received-rr_Limits s p now rate h =
      let q = read_report p in
      let known = record s { recent_rr_packet = q } in
      let heard = on_transport_loss_report known q now in
      let (limits, paces) = set_pacing_rate-Paces heard rate (loss_report-Limits s q now rate h) in
      (
        set_pacing_rate heard,
        rr_handled F s p q now (un_serialize_rr-read_report p new_rr_packet),
        loss_report-number known q now,
        limits,
        paces,
      )

  -- Any bit rate that the receiver wrote is handled, and becomes the limit.
  pub on_packet_received-remb_Limits :
      (s : Sender F) (rate told : DataRate) (now : Timestamp)
      → Limits s rate
      → (r : Sender F) × (on_packet_received s (serialize_remb (record { bandwidth = told })) now
          ≡ ok r)
        × (r.recent_packet_number ≡ s.recent_packet_number)
        × Limits r told
        × Paces r told
  on_packet_received-remb_Limits s rate told now h =
      let q : RembPacket = record { bandwidth = read_rate told } in
      let heard = on_remote_bitrate_report s q now in
      let (limits, paces) =
        set_pacing_rate-Paces heard told (rate_report-Limits s rate told now h) in
      let sent : RembPacket = record { bandwidth = told } in
      (
        set_pacing_rate heard,
        remb_handled F s sent q now (un_serialize_remb-read_rate sent new_remb_packet),
        rate_report-number s q now,
        limits,
        paces,
      )

module _ {ℓ} (F : Type ℓ) ⦃fl : Double F⦄ where
  pub started_sender-Limits :
      Limits (started_sender {F = F}) (pos 0) × Paces (started_sender {F = F}) (pos 0)
  unfolding started_sender new_send_side shown to_u64 is_zero
  started_sender-Limits = ground arith
