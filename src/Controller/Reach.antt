-- ===== src/Controller/Reach.antt =====
-- The controller over any sequence of calls of its handlers.
use gcc_chrome.Common.{
  ◌≤◌, ◌≡◌, refl, Bool, false, inl, inr, Bool-cases, Option-cases, if-elim, Option, none, some,
  List, [], ◌∷◌, arith,
}
use gcc_chrome.Common.Double.{Double}
use gcc_chrome.Common.Int.{ℤ}
use gcc_chrome.Common.Lists.{length, length-append}
use gcc_chrome.Unit.{Timestamp, TimeDelta, DataRate, minus_infinity, is_finite, time_delta_ms}
use gcc_chrome.NetworkTypes.{
  NetworkStateEstimate, SentPacket, PacketResult, TransportLossReport, TransportPacketsFeedback,
  received_with_send_info, sorted_by_receive_time,
}
use gcc_chrome.SendSide.Target.{set_acknowledged_rate}
use gcc_chrome.Acknowledged.{incoming_packet_feedback_vector, acknowledged_bitrate}
use gcc_chrome.DelayBased.{DelayBasedBwe, new_delay_based_bwe}
use gcc_chrome.Aimd.Response.{same_CanRaise, get_expected_bandwidth_period-total}
use gcc_chrome.DelayBased.Reach.{IsRoundTrip}
use gcc_chrome.DelayBased.Packets.{IsReady, new-IsReady}
use gcc_chrome.DelayBased.Estimate.{IsReady-with, incoming_sorted-total}
use gcc_chrome.DelayBased.Update as Delay
use gcc_chrome.Controller.{
  Config, Controller, TargetRateConstraints, started, new_controller, on_remote_bitrate_report,
  on_round_trip_time_update, on_sent_packet, on_received_packet, on_transport_loss_report,
  on_network_state_estimate, start_delay, take_constraints, reset_constraints,
}
use gcc_chrome.Controller.Feedback.{
  max_feedback_rtt_window, largest_rtt, push_rtt, record_rtt, packet_feedback, estimate, is_nil,
  on_transport_packets_feedback,
}
use gcc_chrome.Controller.Network.{
  NetworkControlUpdate, get_network_state, no_update, changed_update, network_changed,
  remember_estimates, maybe_trigger_on_network_changed, on_target_rate_constraints,
}

-- The handlers that change the state.
pub data Event {ℓ} (F : Type ℓ) : Type ℓ where
  remote_bitrate : Timestamp → DataRate → Event F
  round_trip_time : Timestamp → TimeDelta → Bool → Event F
  sent : SentPacket → Event F
  received : Timestamp → Event F
  constraints : TargetRateConstraints → Event F
  loss : TransportLossReport → Event F
  packets : TransportPacketsFeedback → Event F
  network_state : NetworkStateEstimate F → Event F

abbrev pub AreValid {ℓ} : {F : Type ℓ} → List (Event F) → Type 0
AreValid [] = Unit
AreValid (round_trip_time at_time rtt smoothed ∷ es) = IsRoundTrip rtt × AreValid es
AreValid (e ∷ es) = AreValid es

length-push_rtt : (rtts : List ℤ) (rtt : ℤ) → length rtts ≤ 32 → length (push_rtt rtts rtt) ≤ 32
unfolding push_rtt
length-push_rtt [] rtt h = ground arith
length-push_rtt (x ∷ xs) rtt h = ground (arith, length-append xs (rtt ∷ []))

module _ {ℓ} {F : Type ℓ} ⦃fl : Double F⦄ where
  unfoldable pub step : Controller F → Event F → Option (Controller F)
  step s (remote_bitrate at_time rate) = some (on_remote_bitrate_report s at_time rate)
  step s (round_trip_time at_time rtt smoothed) =
      some (on_round_trip_time_update s at_time rtt smoothed)
  step s (sent packet) = some (on_sent_packet s packet)
  step s (received at_time) = some (on_received_packet s at_time)
  step s (constraints new) = elim (on_target_rate_constraints s new) [
    | none ↦ none
    | some (r, out) ↦ some r
  ]
  step s (loss report) = some (on_transport_loss_report s report)
  step s (packets report) = on_transport_packets_feedback s report
  step s (network_state msg) = some (on_network_state_estimate s msg)

  -- The delay-based estimator can be used, the window of round trip times is short, and packets are
  -- not the only feedback.
  pub record IsWell (s : Controller F) : Type 0 where
    pub both : s.packet_feedback_only ≡ false
    pub ready : IsReady s.delay_based_bwe
    pub window : length s.feedback_max_rtts ≤ max_feedback_rtt_window

  record_rtt-IsWell :
      (s : Controller F) (ps : List PacketResult) (feedback_time : Timestamp)
      → IsWell s
      → IsWell (record_rtt s ps feedback_time)
  unfolding record_rtt
  record_rtt-IsWell s ps feedback_time h =
      let rtt = largest_rtt ps feedback_time minus_infinity in
      if-elim IsWell (is_finite rtt)
        (λ _. record {
          both = h.both;
          ready = h.ready;
          window = length-push_rtt s.feedback_max_rtts (time_delta_ms rtt) h.window;
        })
        (λ _. h)

  packet_feedback-IsWell :
      (s : Controller F) (ps : List PacketResult) (report : TransportPacketsFeedback)
      → IsWell s
      → IsWell (packet_feedback s ps report)
  unfolding packet_feedback
  packet_feedback-IsWell s ps report h =
      if-elim IsWell s.packet_feedback_only (λ only. absurd (ground (arith, h.both, only))) (λ _. h)

  estimate-total :
      (s : Controller F) (report : TransportPacketsFeedback)
      → IsWell s
      → (r : Controller F) × (estimate s report ≡ some r) × IsWell r
  unfolding estimate Delay.incoming_packet_feedback_vector
  estimate-total s report h =
      let acknowledged =
        incoming_packet_feedback_vector s.acknowledged (sorted_by_receive_time report) in
      let rate = acknowledged_bitrate acknowledged in
      let (d, result, e, ready, _) =
        incoming_sorted-total s.delay_based_bwe (sorted_by_receive_time report) rate s.estimate
          false report.feedback_time h.ready in
      (
        record s {
          acknowledged = acknowledged;
          bandwidth_estimation = set_acknowledged_rate s.bandwidth_estimation rate;
          delay_based_bwe = d;
          recent_result = result;
        },
        rw (e, estimate, Delay.incoming_packet_feedback_vector) refl,
        record { both = h.both; ready = ready; window = h.window },
      )

  start_delay-IsReady :
      (d : DelayBasedBwe F) (start : Option DataRate) → IsReady d → IsReady (start_delay d start)
  unfolding Delay.set_start_bitrate gcc_chrome.Aimd.set_start_bitrate
  start_delay-IsReady d none h = h
  start_delay-IsReady d (some rate) h =
      IsReady-with d h (same_CanRaise F d.rate_control _ (refl, refl) h.raises)

  reset_constraints-IsWell :
      (s : Controller F) (new : TargetRateConstraints) → IsWell s → IsWell (reset_constraints s new)
  unfolding reset_constraints Delay.set_min_bitrate gcc_chrome.Aimd.set_min_bitrate
  reset_constraints-IsWell s new h =
      let d = start_delay s.delay_based_bwe (take_constraints s new).starting_rate in
      let ready = start_delay-IsReady s.delay_based_bwe _ h.ready in
      record {
        both = h.both;
        ready = IsReady-with d ready (same_CanRaise F d.rate_control _ (refl, refl) ready.raises);
        window = h.window;
      }

  on_target_rate_constraints-total :
      (s : Controller F) (new : TargetRateConstraints)
      → IsWell s
      → (r : Controller F) × (out : NetworkControlUpdate F) × (on_target_rate_constraints s new
          ≡ some (r, out))
        × IsWell r
  unfolding on_target_rate_constraints maybe_trigger_on_network_changed remember_estimates
      Delay.get_expected_bwe_period
  on_target_rate_constraints-total s new h =
      let r = reset_constraints s new in
      let well = reset_constraints-IsWell s new h in
      let (period, e) =
        get_expected_bandwidth_period-total F r.delay_based_bwe.rate_control well.ready.raises in
      elim (Bool-cases (network_changed r)) [
        | inl changed ↦ (
          remember_estimates r,
          changed_update r new.at_time period,
          simp (changed, e, on_target_rate_constraints, maybe_trigger_on_network_changed),
          record { both = well.both; ready = well.ready; window = well.window },
        )
        | inr same ↦ (
          r,
          no_update,
          simp (same, on_target_rate_constraints, maybe_trigger_on_network_changed),
          well,
        )
      ]

  pub on_transport_packets_feedback-total :
      (s : Controller F) (report : TransportPacketsFeedback)
      → IsWell s
      → (r : Controller F) × (on_transport_packets_feedback s report ≡ some r) × IsWell r
  unfolding on_transport_packets_feedback
  on_transport_packets_feedback-total s report h =
      let ps = received_with_send_info report.packet_feedbacks in
      let timed = record_rtt s ps report.feedback_time in
      if-elim (λ o. (r : Controller F) × (o ≡ some r) × IsWell r) (is_nil report.packet_feedbacks)
        (λ _. (s, refl, h))
        (λ _.
          estimate-total (packet_feedback timed ps report) report (
            packet_feedback-IsWell timed ps report (record_rtt-IsWell s ps report.feedback_time h)))

  step-total :
      (s : Controller F) (e : Event F)
      → IsWell s
      → AreValid (e ∷ [])
      → (r : Controller F) × (step s e ≡ some r) × IsWell r
  unfolding step on_network_state_estimate on_remote_bitrate_report on_round_trip_time_update
      on_sent_packet on_received_packet on_transport_loss_report Delay.on_rtt_update
      gcc_chrome.Aimd.set_rtt
  step-total s (remote_bitrate at_time rate) h v = (
    on_remote_bitrate_report s at_time rate,
    refl,
    if-elim IsWell s.packet_feedback_only (λ _. h)
        (λ _. record { both = h.both; ready = h.ready; window = h.window }),
  )
  step-total s (round_trip_time at_time rtt smoothed) h ((floor, small), _) = (
    on_round_trip_time_update s at_time rtt smoothed,
    refl,
    if-elim IsWell s.packet_feedback_only (λ _. h)
        (λ _.
          if-elim IsWell smoothed (λ _. h)
            (λ _. record {
              both = h.both;
              ready =
                  IsReady-with s.delay_based_bwe h.ready
                    (record { calm = h.ready.raises.calm; floor = floor; small = small });
              window = h.window;
            })),
  )
  step-total s (sent packet) h v = (
    on_sent_packet s packet,
    refl,
    if-elim IsWell s.first_packet_sent (λ _. h)
        (λ _. record { both = h.both; ready = h.ready; window = h.window }),
  )
  step-total s (received at_time) h v = (
    on_received_packet s at_time,
    refl,
    record { both = h.both; ready = h.ready; window = h.window },
  )
  step-total s (constraints new) h v =
      let (r, out, e, well) = on_target_rate_constraints-total s new h in
      (r, rw (e, step) refl, well)
  step-total s (loss report) h v = (
    on_transport_loss_report s report,
    refl,
    if-elim IsWell s.packet_feedback_only (λ _. h)
        (λ _. record { both = h.both; ready = h.ready; window = h.window }),
  )
  step-total s (packets report) h v = on_transport_packets_feedback-total s report h
  step-total s (network_state msg) h v = (
    on_network_state_estimate s msg,
    refl,
    record { both = h.both; ready = h.ready; window = h.window },
  )

  AreValid-head :
      (e : Event F) (es : List (Event F)) → AreValid (e ∷ es) → AreValid (e ∷ []) × AreValid es
  AreValid-head (remote_bitrate at_time rate) es v = (tt, v)
  AreValid-head (round_trip_time at_time rtt smoothed) es (v, vs) = ((v, tt), vs)
  AreValid-head (sent packet) es v = (tt, v)
  AreValid-head (received at_time) es v = (tt, v)
  AreValid-head (constraints new) es v = (tt, v)
  AreValid-head (loss report) es v = (tt, v)
  AreValid-head (packets report) es v = (tt, v)
  AreValid-head (network_state msg) es v = (tt, v)

  get_network_state-total :
      (s : Controller F) (at_time : Timestamp)
      → IsWell s
      → (told : NetworkControlUpdate F) × (get_network_state s at_time ≡ some told)
  unfolding get_network_state Delay.get_expected_bwe_period
  get_network_state-total s at_time h =
      let (_, e) =
        get_expected_bandwidth_period-total F s.delay_based_bwe.rate_control h.ready.raises in
      elim (Option-cases (get_network_state s at_time)) [
        | inl fault ↦ absurd (ground arith)
        | inr known ↦ known
      ]

  unfoldable pub run : Controller F → List (Event F) → Option (Controller F)
  run s [] = some s
  run s (e ∷ es) = elim (step s e) [ none ↦ none | some r ↦ run r es ]

  run-total :
      (s : Controller F) (es : List (Event F))
      → IsWell s
      → AreValid es
      → (r : Controller F) × (run s es ≡ some r) × IsWell r
  unfolding run
  run-total s [] h v = (s, refl, h)
  run-total s (e ∷ es) h v =
      let (first, rest) = AreValid-head e es v in
      let (r, eq, well) = step-total s e h first in
      let (t, eq', well') = run-total r es well rest in (t, rw (eq, run) eq', well')

  pub started-IsWell :
      (config : Config F) (rate : DataRate) (has_predictor in_alr : Bool)
      → IsWell (started config rate has_predictor in_alr)
  unfolding started Delay.set_min_bitrate gcc_chrome.Aimd.set_min_bitrate new_delay_based_bwe
  started-IsWell config rate has_predictor in_alr = record {
    both = refl;
    ready =
        let new = new-IsReady {F = F} has_predictor in
        IsReady-with (new_delay_based_bwe has_predictor) new (
          same_CanRaise F (new_delay_based_bwe {F = F} has_predictor).rate_control _ (refl, refl)
            new.raises);
    window = omega arith;
  }

module _ {ℓ} (F : Type ℓ) ⦃fl : Double F⦄ where
  -- A controller that is made from a configuration with a starting rate handles any sequence of calls
  -- whose round trip times are not negative and below 2^62 microseconds without a failed assertion,
  -- an access out of bounds or a division by zero, and keeps at most 32 round trip times; and its
  -- state can then be asked for at any time.
  pub handlers_complete :
      (config : Config F) (has_predictor in_alr : Bool) (rate : DataRate) (es : List (Event F))
      (at_time : Timestamp)
      → config.constraints.starting_rate ≡ some rate
      → AreValid es
      → (s : Controller F) × (new_controller config has_predictor in_alr ≡ some s)
        × (r : Controller F) × (run s es ≡ some r)
        × (length r.feedback_max_rtts ≤ 32)
        × (told : NetworkControlUpdate F) × (get_network_state r at_time ≡ some told)
  unfolding new_controller
  handlers_complete config has_predictor in_alr rate es at_time given valid =
      let s = started config rate has_predictor in_alr in
      let (r, e, well) = run-total s es (started-IsWell config rate has_predictor in_alr) valid in
      let (told, asked) = get_network_state-total r at_time well in
      (s, rw (given, new_controller) refl, r, e, well.window, told, asked)
