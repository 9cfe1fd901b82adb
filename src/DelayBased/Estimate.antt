-- ===== src/DelayBased/Estimate.antt =====
-- What a feedback makes of the delay-based estimate.
use gcc_chrome.Common.{
  ◌≡◌, ◌∙◌, ap, refl, inl, inr, Bool, true, false, not, ◌&&◌, ◌||◌, if-elim, Bool-cases, Option,
  none, some, List, [], ◌∷◌, if◌then◌else◌, arith,
}
use gcc_chrome.Common.Double.{Double}
use gcc_chrome.Common.Int.{eqb_ℤ}
use gcc_chrome.Unit.{Timestamp, DataRate}
use gcc_chrome.NetworkTypes.{NetworkStateEstimate, PacketResult}
use gcc_chrome.Aimd
use gcc_chrome.Aimd.{
  BandwidthUsage, normal, underusing, overusing, last, Aimd, is_overusing, initialize, change_state,
  change_bitrate, set_estimate, clamp_bitrate,
}
use gcc_chrome.DelayBased.{DelayBasedBwe, Result, no_result, active_state}
use gcc_chrome.DelayBased.Packets.{IsReady, active_state-ne-last, packets_loop-total}
use gcc_chrome.Aimd.Response.{CanRaise, same_CanRaise, update-total}
use gcc_chrome.DelayBased.Update.{
  same_usage, update_estimate, set_rate_control, incoming_sorted, halve, on_overuse, remember,
  maybe_update_estimate,
}

same_usage-eq : (a b : BandwidthUsage) → same_usage a b ≡ true → a ≡ b
same_usage-eq a b h = ground arith

module _ {ℓ} {F : Type ℓ} ⦃fl : Double F⦄ where
  -- Only the rate control, the detectors and the inter-arrival objects matter.
  pub IsReady-with :
      (s : DelayBasedBwe F) {rate_control : Aimd F} {prev_bitrate : DataRate}
      {has_once_detected_overuse : Bool} {prev_state : BandwidthUsage}
      → IsReady s
      → CanRaise rate_control
      → IsReady (record s {
        rate_control = rate_control;
        prev_bitrate = prev_bitrate;
        has_once_detected_overuse = has_once_detected_overuse;
        prev_state = prev_state;
      })
  IsReady-with s h raises = record {
    raises = raises;
    video_bounded = h.video_bounded;
    audio_bounded = h.audio_bounded;
    made = h.made;
  }

  remember-IsReady :
      (s : DelayBasedBwe F) (result : Result) → IsReady s → IsReady (remember s result)
  unfolding remember
  remember-IsReady s result h =
      if-elim IsReady
        (result.updated && not (eqb_ℤ s.prev_bitrate result.target_bitrate)
          || not (same_usage (active_state s) s.prev_state))
        (λ _. IsReady-with s h h.raises) (λ _. h)

  -- What the estimate that is last remembered is.
  remember_lem :
      (s : DelayBasedBwe F) (result : Result)
      → ((remember s result).prev_bitrate
          ≡ (if result.updated then result.target_bitrate else s.prev_bitrate))
        × ((remember s result).prev_state ≡ active_state s)
  unfolding remember
  remember_lem s result = ground (arith, same_usage-eq (active_state s) s.prev_state)

  -- The call succeeds: the detectors stay usable, and the last estimate and the state of the network are
  -- as they were.
  abbrev Succeeds : DelayBasedBwe F → Option (DelayBasedBwe F × Result) → Type ℓ
  Succeeds s o =
      (r : DelayBasedBwe F) × (out : Result) × (o ≡ some (r, out))
      × IsReady r
      × (r.prev_bitrate ≡ s.prev_bitrate)
      × (active_state r ≡ active_state s)

  update_estimate-total :
      (s : DelayBasedBwe F) (at_time : Timestamp) (acked_bitrate : Option DataRate)
      (result : Result)
      → IsReady s
      → Succeeds s (update_estimate s at_time acked_bitrate result)
  unfolding update_estimate
  update_estimate-total s at_time acked_bitrate result h =
      let (c, e, raises) =
        update-total F s.rate_control (active_state s) acked_bitrate at_time h.raises
          (active_state-ne-last s h) in
      (
        record s { rate_control = c },
        record result { target_bitrate = c.current_bitrate; updated = c.bitrate_is_initialized },
        rw (e, update_estimate) refl,
        IsReady-with s h raises,
        refl,
        refl,
      )

  on_overuse-total :
      (s : DelayBasedBwe F) (acked_bitrate : Option DataRate) (in_alr : Bool) (at_time : Timestamp)
      → IsReady s
      → Succeeds s (on_overuse s acked_bitrate in_alr at_time)
  unfolding on_overuse halve set_estimate clamp_bitrate
  on_overuse-total s acked_bitrate in_alr at_time h =
      let idle : Succeeds s (some (s, no_result)) = (s, no_result, refl, h, refl, refl) in
      if-elim (Succeeds s) (s.has_once_detected_overuse && in_alr)
        (λ _.
          if-elim (Succeeds s) (Aimd.time_to_reduce_further F s.rate_control at_time s.prev_bitrate)
            (λ _. update_estimate-total s at_time (some s.prev_bitrate) _ h) (λ _. idle))
        (λ _. without_alr acked_bitrate idle)
    where
      without_alr :
          (acked : Option DataRate)
          → Succeeds s (some (s, no_result))
          → Succeeds s (elim acked [
            | some rate ↦
                if Aimd.time_to_reduce_further F s.rate_control at_time rate
                then update_estimate s at_time (some rate) no_result
                else some (s, no_result)
            | none ↦
                if s.rate_control.bitrate_is_initialized
                  && Aimd.initial_time_to_reduce_further s.rate_control
                then some (halve s at_time)
                else some (s, no_result)
          ])
      without_alr (some rate) idle =
          if-elim (Succeeds s) (Aimd.time_to_reduce_further F s.rate_control at_time rate)
            (λ _. update_estimate-total s at_time (some rate) no_result h) (λ _. idle)
      without_alr none idle =
          if-elim (Succeeds s)
            (s.rate_control.bitrate_is_initialized
              && Aimd.initial_time_to_reduce_further s.rate_control)
            (λ _. (
              (halve s at_time).0,
              (halve s at_time).1,
              refl,
              IsReady-with s h (same_CanRaise F s.rate_control _ (refl, refl) h.raises),
              refl,
              refl,
            ))
            (λ _. idle)

  maybe_update_estimate-total :
      (s : DelayBasedBwe F) (acked_bitrate : Option DataRate) (recovered in_alr : Bool)
      (at_time : Timestamp)
      → IsReady s
      → (r : DelayBasedBwe F) × (out : Result) × (maybe_update_estimate s acked_bitrate recovered
            in_alr at_time
          ≡ some (r, out))
        × IsReady r
        × (r.prev_bitrate ≡ (if out.updated then out.target_bitrate else s.prev_bitrate))
  unfolding maybe_update_estimate
  maybe_update_estimate-total s acked_bitrate recovered in_alr at_time h =
      elim (Bool-cases (is_overusing (active_state s))) [
        | inl over ↦
            let (r, out, e, ready, kept, _) = on_overuse-total s acked_bitrate in_alr at_time h in
            let seen = record r { has_once_detected_overuse = true } in
            let (last_rate, _) = remember_lem seen out in
            (
              remember seen out,
              out,
              simp (over, e, maybe_update_estimate),
              remember-IsReady seen out (IsReady-with r ready ready.raises),
              last_rate ∙ ap (λ k. if out.updated then out.target_bitrate else k) kept,
            )
        | inr calm ↦
            let (r, out, e, ready, kept, _) =
              update_estimate-total s at_time acked_bitrate no_result h in
            let told = record out { recovered_from_overuse = recovered } in
            let (last_rate, _) = remember_lem r told in
            (
              remember r told,
              told,
              simp (calm, e, maybe_update_estimate),
              remember-IsReady r told ready,
              last_rate ∙ ap (λ k. if out.updated then out.target_bitrate else k) kept,
            )
      ]

  pub incoming_sorted-total :
      (s : DelayBasedBwe F) (ps : List PacketResult) (acked_bitrate : Option DataRate)
      (estimate : Option (NetworkStateEstimate F)) (in_alr : Bool) (feedback_time : Timestamp)
      → IsReady s
      → (r : DelayBasedBwe F) × (out : Result) × (incoming_sorted s ps acked_bitrate estimate in_alr
            feedback_time
          ≡ some (r, out))
        × IsReady r
        × (r.prev_bitrate ≡ (if out.updated then out.target_bitrate else s.prev_bitrate))
  unfolding incoming_sorted Aimd.set_network_state_estimate Aimd.set_in_application_limited_region
  incoming_sorted-total s [] acked_bitrate estimate in_alr feedback_time h =
      (s, no_result, refl, h, refl)
  incoming_sorted-total s (p ∷ ps) acked_bitrate estimate in_alr feedback_time h =
      let (q, recovered, e, ready, (_, kept, _, _)) =
        packets_loop-total s (p ∷ ps) feedback_time false h in
      let limited = set_rate_control q (
        Aimd.set_network_state_estimate
          (Aimd.set_in_application_limited_region q.rate_control in_alr) estimate) in
      let (r, out, e', ready', last_rate) =
        maybe_update_estimate-total limited acked_bitrate recovered in_alr feedback_time
          (IsReady-with q ready (same_CanRaise F q.rate_control _ (refl, refl) ready.raises)) in
      (
        r,
        out,
        simp (e, e', incoming_sorted),
        ready',
        last_rate ∙ ap (λ k. if out.updated then out.target_bitrate else k) kept,
      )
