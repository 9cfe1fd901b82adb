-- ===== src/DelayBased/Packets.antt =====
-- The detectors of the delay-based estimator are set whenever they are used.
use gcc_chrome.Common.{
  ◌≡◌, ◌≢◌, ◌∙◌, refl, Bool, false, ◌||◌, not, if-elim, Option, some, List, [], ◌∷◌, arith,
}
use gcc_chrome.Common.Double.{Double}
use gcc_chrome.Common.Int.{ltb_ℤ}
use gcc_chrome.Unit.{Timestamp, is_infinite, sub}
use gcc_chrome.NetworkTypes.{PacketResult}
use gcc_chrome.InterArrival.{new_inter_arrival_delta}
use gcc_chrome.Aimd.{last}
use gcc_chrome.Aimd.Response.{CanRaise}
use gcc_chrome.Trendline.Update.{state}
use gcc_chrome.Trendline.History.{IsBounded, new-IsBounded, update-total}
use gcc_chrome.DelayBased.{
  DelayBasedBwe, Detector, stream_time_out, send_time_group_length, video, audio,
  new_delay_based_bwe, active_state, time_out, choose_active, sample_of, detector_for,
  inter_arrival_for, packet_outcome, feed, update_detector, incoming_packet_feedback, packets_loop,
  recovers,
}

abbrev pub HasInterArrivals {ℓ} : {A : Type ℓ} → Option A → Type ℓ
HasInterArrivals {A} o = (a : A) × (o ≡ some a)

or-false : (a b : Bool) → (a || b) ≡ false → a ≡ false
or-false a b h = ground arith

module _ {ℓ} {F : Type ℓ} ⦃fl : Double F⦄ where
  -- The rate control can divide by its response time, the detectors are bounded, and the inter-arrival objects are made once a packet was seen.
  pub record IsReady (s : DelayBasedBwe F) : Type 0 where
    pub raises : CanRaise s.rate_control
    pub video_bounded : IsBounded s.video_delay_detector
    pub audio_bounded : IsBounded s.audio_delay_detector
    pub made :
        is_infinite s.last_seen_packet ≡ false
        → HasInterArrivals s.video_inter_arrival_delta
          × HasInterArrivals s.audio_inter_arrival_delta

  pub new-IsReady : (b : Bool) → IsReady (new_delay_based_bwe {F = F} b)
  unfolding new_delay_based_bwe is_infinite gcc_chrome.Aimd.new_aimd
  new-IsReady b = record {
    raises = record { calm = refl; floor = omega arith; small = omega arith };
    video_bounded = new-IsBounded b;
    audio_bounded = new-IsBounded b;
    made = λ e. cc;
  }

  -- A detector that is bounded is in a state of the network, so never in `last`.
  pub active_state-ne-last : (s : DelayBasedBwe F) → IsReady s → active_state s ≢ last
  unfolding state
  active_state-ne-last s h = ground arith

  -- The fields that the packets leave as they are.
  abbrev pub SameRate : DelayBasedBwe F → DelayBasedBwe F → Type ℓ
  SameRate s r =
      (r.rate_control ≡ s.rate_control)
      × (r.prev_bitrate ≡ s.prev_bitrate)
      × (r.prev_state ≡ s.prev_state)
      × (r.has_once_detected_overuse ≡ s.has_once_detected_overuse)

  -- After `time_out` both objects are made.
  abbrev IsMade : DelayBasedBwe F → Type 0
  IsMade s =
      CanRaise s.rate_control
      × IsBounded s.video_delay_detector
      × IsBounded s.audio_delay_detector
      × HasInterArrivals s.video_inter_arrival_delta
      × HasInterArrivals s.audio_inter_arrival_delta

  time_out-IsMade :
      (s : DelayBasedBwe F) (at_time : Timestamp)
      → IsReady s
      → IsMade (time_out s at_time) × SameRate s (time_out s at_time)
  unfolding time_out
  time_out-IsMade s at_time h =
      if-elim {A = DelayBasedBwe F}
        (λ r. let t = record r { last_seen_packet = at_time } in IsMade t × SameRate s t)
        (is_infinite s.last_seen_packet || ltb_ℤ stream_time_out (sub at_time s.last_seen_packet))
        (λ old. (
          (
            h.raises,
            new-IsBounded s.has_predictor,
            new-IsBounded s.has_predictor,
            (new_inter_arrival_delta send_time_group_length, refl),
            (new_inter_arrival_delta send_time_group_length, refl),
          ),
          (refl, refl, refl, refl),
        ))
        (λ recent.
          let (v, a) = h.made (or-false _ _ recent) in
          ((h.raises, h.video_bounded, h.audio_bounded, v, a), (refl, refl, refl, refl)))

  choose_active-IsMade :
      (s : DelayBasedBwe F) (p : PacketResult)
      → IsMade s
      → IsMade (choose_active s p) × SameRate s (choose_active s p)
  unfolding choose_active
  choose_active-IsMade s p h =
      if-elim (λ r. IsMade r × SameRate s r) (not s.separate_audio.enabled)
        (λ _. (h, (refl, refl, refl, refl)))
        (λ _.
          if-elim (λ r. IsMade r × SameRate s r) p.sent_packet.audio
            (λ _. (h, (refl, refl, refl, refl))) (λ _. (h, (refl, refl, refl, refl))))

  feed-total :
      (which : Detector) (s : DelayBasedBwe F) (p : PacketResult) (at_time : Timestamp)
      → IsMade s
      → (r : DelayBasedBwe F) × (feed which s (inter_arrival_for which s) p at_time ≡ some r)
        × IsReady r
        × SameRate s r
  unfolding feed
  feed-total audio s p at_time (raises, video_ok, audio_ok, (v, ev), (a, ea)) =
      let out = packet_outcome v p at_time in
      let (t, e, b, _) =
        update-total s.audio_delay_detector (sample_of p out) out.computed audio_ok in
      (
        record s { video_inter_arrival_delta = some out.next; audio_delay_detector = t },
        rw (ev, feed, e) refl,
        record {
          raises = raises;
          video_bounded = video_ok;
          audio_bounded = b;
          made = λ _. ((out.next, refl), (a, ea));
        },
        (refl, refl, refl, refl),
      )
  feed-total video s p at_time (raises, video_ok, audio_ok, (v, ev), (a, ea)) =
      let out = packet_outcome a p at_time in
      let (t, e, b, _) =
        update-total s.video_delay_detector (sample_of p out) out.computed video_ok in
      (
        record s { audio_inter_arrival_delta = some out.next; video_delay_detector = t },
        rw (ea, feed, e) refl,
        record {
          raises = raises;
          video_bounded = b;
          audio_bounded = audio_ok;
          made = λ _. ((v, ev), (out.next, refl));
        },
        (refl, refl, refl, refl),
      )

  SameRate-trans : (s r t : DelayBasedBwe F) → SameRate s r → SameRate r t → SameRate s t
  SameRate-trans s r t (a, b, c, d) (a', b', c', d') = (a' ∙ a, b' ∙ b, c' ∙ c, d' ∙ d)

  incoming_packet_feedback-total :
      (s : DelayBasedBwe F) (p : PacketResult) (at_time : Timestamp)
      → IsReady s
      → (r : DelayBasedBwe F) × (incoming_packet_feedback s p at_time ≡ some r)
        × IsReady r
        × SameRate s r
  unfolding incoming_packet_feedback update_detector
  incoming_packet_feedback-total s p at_time h =
      let (made, same) = time_out-IsMade s at_time h in
      let timed = time_out s at_time in
      let (made', same') = choose_active-IsMade timed p made in
      let chosen = choose_active timed p in
      let (r, e, ready, same'') = feed-total (detector_for chosen p) chosen p at_time made' in
      (r, e, ready, SameRate-trans s timed r same (SameRate-trans timed chosen r same' same''))

  -- The packets of a feedback are used without fault, and leave the rate as it is.
  pub packets_loop-total :
      (s : DelayBasedBwe F) (ps : List PacketResult) (at_time : Timestamp) (recovered : Bool)
      → IsReady s
      → (r : DelayBasedBwe F) × (b : Bool) × (packets_loop s ps at_time recovered ≡ some (r, b))
        × IsReady r
        × SameRate s r
  unfolding packets_loop
  packets_loop-total s [] at_time recovered h = (s, recovered, refl, h, (refl, refl, refl, refl))
  packets_loop-total s (p ∷ ps) at_time recovered h =
      let (r, e, ready, same) = incoming_packet_feedback-total s p at_time h in
      let (t, b, e', ready', same') =
        packets_loop-total r ps at_time (recovered || recovers (active_state s) (active_state r))
          ready in
      (t, b, simp (e, e', packets_loop), ready', SameRate-trans s r t same same')
