-- ===== src/DelayBased/Reach.antt =====
-- The delay-based estimator over any sequence of calls.
use gcc_chrome.Common.{
  ◌^◌, ◌<◌, ◌≡◌, refl, Bool, Option, none, some, List, [], ◌∷◌, if◌then◌else◌, arith,
}
use gcc_chrome.Common.Double.{Double}
use gcc_chrome.Unit.{Timestamp, TimeDelta, DataRate}
use gcc_chrome.NetworkTypes.{NetworkStateEstimate, TransportPacketsFeedback, sorted_by_receive_time}
use gcc_chrome.Aimd.{overusing}
use gcc_chrome.DelayBased.{DelayBasedBwe, Result, new_delay_based_bwe}
use gcc_chrome.Aimd.Response.{same_CanRaise, update-total}
use gcc_chrome.Common.Int.{pos, pos_part, ◌≤ℤ◌}
use gcc_chrome.DelayBased.Packets.{IsReady, new-IsReady}
use gcc_chrome.DelayBased.Update.{
  set_rate_control, incoming_packet_feedback_vector, trigger_overuse, on_rtt_update,
  set_start_bitrate, set_min_bitrate,
}
use gcc_chrome.DelayBased.Estimate.{IsReady-with, incoming_sorted-total}

-- The calls that may be made of the estimator.
pub data Event {ℓ} (F : Type ℓ) : Type ℓ where
  feedback :
      TransportPacketsFeedback → Option DataRate → Option (NetworkStateEstimate F) → Bool → Event F
  overuse : Timestamp → Option DataRate → Event F
  rtt : TimeDelta → Event F
  start_bitrate : DataRate → Event F
  min_bitrate : DataRate → Event F

-- A round trip time is not negative and less than 2^62 microseconds.
abbrev pub IsRoundTrip : TimeDelta → Type 0
IsRoundTrip t = (pos 0 ≤ℤ t) × (pos_part t < 2 ^ 62)

abbrev pub AreValid {ℓ} : {F : Type ℓ} → List (Event F) → Type 0
AreValid [] = Unit
AreValid (rtt t ∷ es) = IsRoundTrip t × AreValid es
AreValid (e ∷ es) = AreValid es

module _ {ℓ} {F : Type ℓ} ⦃fl : Double F⦄ where
  abbrev map_state : Option (DelayBasedBwe F × Result) → Option (DelayBasedBwe F)
  map_state none = none
  map_state (some (r, out)) = some r

  unfoldable pub step : DelayBasedBwe F → Event F → Option (DelayBasedBwe F)
  step s (feedback msg acked estimate in_alr) =
      map_state (incoming_packet_feedback_vector s msg acked estimate in_alr)
  step s (overuse at_time capacity) = elim (trigger_overuse s at_time capacity) [
    | none ↦ none
    | some (r, rate) ↦ some r
  ]
  step s (rtt t) = some (on_rtt_update s t)
  step s (start_bitrate rate) = some (set_start_bitrate s rate)
  step s (min_bitrate rate) = some (set_min_bitrate s rate)

  step-total :
      (s : DelayBasedBwe F) (e : Event F)
      → IsReady s
      → AreValid (e ∷ [])
      → (r : DelayBasedBwe F) × (step s e ≡ some r) × IsReady r
  unfolding step incoming_packet_feedback_vector on_rtt_update set_start_bitrate set_min_bitrate
      trigger_overuse gcc_chrome.Aimd.set_rtt gcc_chrome.Aimd.set_start_bitrate
      gcc_chrome.Aimd.set_min_bitrate
  step-total s (feedback msg acked estimate in_alr) h v =
      let (r, out, e, ready, _) =
        incoming_sorted-total s (sorted_by_receive_time msg) acked estimate in_alr msg.feedback_time
          h in
      (r, rw (e, step, incoming_packet_feedback_vector) refl, ready)
  step-total s (overuse at_time capacity) h v =
      let (c, e, raises) =
        update-total F s.rate_control overusing capacity at_time h.raises (ground arith) in
      (set_rate_control s c, simp (e, step, trigger_overuse), IsReady-with s h raises)
  step-total s (rtt t) h ((floor, small), _) = (
    on_rtt_update s t,
    refl,
    IsReady-with s h (record { calm = h.raises.calm; floor = floor; small = small }),
  )
  step-total s (start_bitrate rate) h v = (
    set_start_bitrate s rate,
    refl,
    IsReady-with s h (same_CanRaise F s.rate_control _ (refl, refl) h.raises),
  )
  step-total s (min_bitrate rate) h v = (
    set_min_bitrate s rate,
    refl,
    IsReady-with s h (same_CanRaise F s.rate_control _ (refl, refl) h.raises),
  )

  AreValid-head :
      (e : Event F) (es : List (Event F)) → AreValid (e ∷ es) → AreValid (e ∷ []) × AreValid es
  AreValid-head (feedback msg acked estimate in_alr) es v = (tt, v)
  AreValid-head (overuse at_time capacity) es v = (tt, v)
  AreValid-head (rtt t) es (v, vs) = ((v, tt), vs)
  AreValid-head (start_bitrate rate) es v = (tt, v)
  AreValid-head (min_bitrate rate) es v = (tt, v)

  unfoldable pub run : DelayBasedBwe F → List (Event F) → Option (DelayBasedBwe F)
  run s [] = some s
  run s (e ∷ es) = elim (step s e) [ none ↦ none | some r ↦ run r es ]

  run-total :
      (s : DelayBasedBwe F) (es : List (Event F))
      → IsReady s
      → AreValid es
      → (r : DelayBasedBwe F) × (run s es ≡ some r) × IsReady r
  unfolding run
  run-total s [] h v = (s, refl, h)
  run-total s (e ∷ es) h v =
      let (first, rest) = AreValid-head e es v in
      let (r, eq, ready) = step-total s e h first in
      let (t, eq', ready') = run-total r es ready rest in (t, rw (eq, run) eq', ready')

module _ {ℓ} (F : Type ℓ) ⦃fl : Double F⦄ where
  -- Any sequence of calls whose round trip times are not negative and below 2^62 microseconds runs from
  -- the start with the objects of the inter-arrival times made before they are used, without an access
  -- outside the window, a failed assertion or a division by zero, whether or not the detectors see
  -- a pointer that is set as the one of the constructors.
  pub calls_complete :
      (has_predictor : Bool) (es : List (Event F))
      → AreValid es
      → (r : DelayBasedBwe F) × (run (new_delay_based_bwe has_predictor) es ≡ some r)
  calls_complete has_predictor es valid =
      let (r, e, _) =
        run-total (new_delay_based_bwe has_predictor) es (new-IsReady has_predictor) valid in
      (r, e)

  -- After any calls whose round trip times are not negative and below 2^62 microseconds, a feedback
  -- returns a result, and the last estimate is from then on the target of that result if it updates
  -- the estimate, and the same as before if not.
  pub feedback-last_estimate :
      (has_predictor : Bool) (es : List (Event F)) (s : DelayBasedBwe F)
      (msg : TransportPacketsFeedback) (acked_bitrate : Option DataRate)
      (estimate : Option (NetworkStateEstimate F)) (in_alr : Bool)
      → AreValid es
      → run (new_delay_based_bwe has_predictor) es ≡ some s
      → (r : DelayBasedBwe F) × (out : Result) × (incoming_packet_feedback_vector s msg
            acked_bitrate estimate in_alr
          ≡ some (r, out))
        × (r.prev_bitrate ≡ (if out.updated then out.target_bitrate else s.prev_bitrate))
  unfolding incoming_packet_feedback_vector
  feedback-last_estimate has_predictor es s msg acked_bitrate estimate in_alr valid reached =
      let (t, e, ready) =
        run-total (new_delay_based_bwe has_predictor) es (new-IsReady has_predictor) valid in
      let same : t ≡ s = ground (arith, e, reached) in
      let (r, out, e', _, last_rate) =
        incoming_sorted-total s (sorted_by_receive_time msg) acked_bitrate estimate in_alr
          msg.feedback_time (rw (← same) ready) in
      (r, out, e', last_rate)
