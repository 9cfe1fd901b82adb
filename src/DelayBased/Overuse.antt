-- ===== src/DelayBased/Overuse.antt =====
-- Overuse does not raise the delay-based estimate.
use gcc_chrome.Common.{
  ◌≡◌, ◌∙◌, ap, refl, Bool, true, false, ◌&&◌, if-elim, Option, none, some, if◌then◌else◌, arith,
}
use gcc_chrome.Common.Double.{Double}
use gcc_chrome.Common.Int.{ℤ, ◌≤ℤ◌, max_ℤ}
use gcc_chrome.Unit.{Timestamp, DataRate, divide}
use gcc_chrome.Aimd
use gcc_chrome.Aimd.{overusing, Aimd, is_overusing, initialize, set_estimate, clamp_bitrate}
use gcc_chrome.Aimd.Apply.{initialize-keeps}
use gcc_chrome.Aimd.Rate.{update-overusing}
use gcc_chrome.DelayBased.{DelayBasedBwe, Result, no_result, active_state}
use gcc_chrome.DelayBased.Update.{
  update_estimate, halve, on_overuse, remember, maybe_update_estimate,
}

same_bound : (a b m x : ℤ) → a ≡ b → x ≤ℤ max_ℤ a m → x ≤ℤ max_ℤ b m
same_bound a b m x e h = ground arith

module _ {ℓ} {F : Type ℓ} ⦃fl : Double F⦄ where
  -- The target of an update is at least the configured minimum, and no more than the rate so far or
  -- that minimum, whichever is larger; without an update the rate is what it was.
  abbrev pub IsNotRaised : Aimd F → DelayBasedBwe F × Result → Type ℓ
  IsNotRaised c (r, out) =
      (out.updated ≡ true
        → (c.min_configured_bitrate ≤ℤ out.target_bitrate)
          × (out.target_bitrate ≤ℤ max_ℤ c.current_bitrate c.min_configured_bitrate)
          × (r.rate_control.current_bitrate ≡ out.target_bitrate))
      × (out.updated ≡ false → r.rate_control ≡ c)

  abbrev Lowers : Aimd F → Option (DelayBasedBwe F × Result) → Type ℓ
  Lowers c o = (q : DelayBasedBwe F × Result) × (o ≡ some q) × IsNotRaised c q

  update_estimate-Lowers :
      (s : DelayBasedBwe F) (at_time : Timestamp) (acked_bitrate : Option DataRate)
      (result : Result)
      → active_state s ≡ overusing
      → s.rate_control.bitrate_is_initialized ≡ true
      → Lowers s.rate_control (update_estimate s at_time acked_bitrate result)
  unfolding update_estimate
  update_estimate-Lowers s at_time acked_bitrate result over ready =
      let c = s.rate_control in
      let (r, e, lo, hi, _, init) = update-overusing F c acked_bitrate at_time in
      let (_, _, same) = initialize-keeps F c acked_bitrate at_time in
      let same_rate : (initialize c acked_bitrate at_time).current_bitrate ≡ c.current_bitrate =
        ap (λ (a : Aimd F). a.current_bitrate) (same ready) in
      (
        (
          record s { rate_control = r },
          record result { target_bitrate = r.current_bitrate; updated = r.bitrate_is_initialized },
        ),
        simp (over, e, update_estimate),
        (
          (λ _. (lo, same_bound _ _ c.min_configured_bitrate _ same_rate hi, refl)),
          (λ no. cc (init, no)),
        ),
      )

  halve-lowers :
      (s : DelayBasedBwe F) (at_time : Timestamp)
      → divide F s.rate_control.current_bitrate 2 ≤ℤ s.rate_control.current_bitrate
      → IsNotRaised s.rate_control (halve s at_time)
  unfolding halve set_estimate clamp_bitrate
  halve-lowers s at_time half = ((λ _. (ground arith, ground arith, refl)), (λ no. cc))

  on_overuse-Lowers :
      (s : DelayBasedBwe F) (acked_bitrate : Option DataRate) (in_alr : Bool) (at_time : Timestamp)
      → active_state s ≡ overusing
      → s.rate_control.bitrate_is_initialized ≡ true
      → divide F s.rate_control.current_bitrate 2 ≤ℤ s.rate_control.current_bitrate
      → Lowers s.rate_control (on_overuse s acked_bitrate in_alr at_time)
  unfolding on_overuse
  on_overuse-Lowers s acked_bitrate in_alr at_time over ready half =
      let idle : Lowers s.rate_control (some (s, no_result)) =
        ((s, no_result), refl, ((λ no. cc), (λ _. refl))) in
      if-elim (Lowers s.rate_control) (s.has_once_detected_overuse && in_alr)
        (λ _.
          if-elim (Lowers s.rate_control)
            (Aimd.time_to_reduce_further F s.rate_control at_time s.prev_bitrate)
            (λ _. update_estimate-Lowers s at_time (some s.prev_bitrate) _ over ready) (λ _. idle))
        (λ _. without_alr acked_bitrate idle)
    where
      without_alr :
          (acked : Option DataRate)
          → Lowers s.rate_control (some (s, no_result))
          → Lowers s.rate_control (elim acked [
            | some rate ↦
                if Aimd.time_to_reduce_further F s.rate_control at_time rate
                then update_estimate s at_time (some rate) no_result
                else some (s, no_result)
            | none ↦
                if s.rate_control.bitrate_is_initialized
                  && Aimd.initial_time_to_reduce_further s.rate_control
                then some (halve s at_time)
                else some (s, no_result)
          ])
      without_alr (some rate) idle =
          if-elim (Lowers s.rate_control)
            (Aimd.time_to_reduce_further F s.rate_control at_time rate)
            (λ _. update_estimate-Lowers s at_time (some rate) no_result over ready) (λ _. idle)
      without_alr none idle =
          if-elim (Lowers s.rate_control)
            (s.rate_control.bitrate_is_initialized
              && Aimd.initial_time_to_reduce_further s.rate_control)
            (λ _. (halve s at_time, refl, halve-lowers s at_time half)) (λ _. idle)

  remember-keeps :
      (s : DelayBasedBwe F) (result : Result)
      → ((remember s result).rate_control ≡ s.rate_control)
        × ((remember s result).has_once_detected_overuse ≡ s.has_once_detected_overuse)
  unfolding remember
  remember-keeps s result =
      if-elim
        (λ (r : DelayBasedBwe F).
          (r.rate_control ≡ s.rate_control)
          × (r.has_once_detected_overuse ≡ s.has_once_detected_overuse))
        _ (λ _. (refl, refl)) (λ _. (refl, refl))

module _ {ℓ} (F : Type ℓ) ⦃fl : Double F⦄ where
  -- When the active detector signals overuse and there is a rate, the estimate returns a result: its
  -- target, if it updates, is the new rate, at least the configured minimum, and no more than the
  -- rate so far, or than that minimum if it is larger; if it does not update, the rate control is as
  -- before. The overuse is remembered. Halving the rate in floating point must not raise it.
  pub maybe_update_estimate-overusing :
      (s : DelayBasedBwe F) (acked_bitrate : Option DataRate) (recovered in_alr : Bool)
      (at_time : Timestamp)
      → active_state s ≡ overusing
      → s.rate_control.bitrate_is_initialized ≡ true
      → divide F s.rate_control.current_bitrate 2 ≤ℤ s.rate_control.current_bitrate
      → (q : DelayBasedBwe F × Result) × (maybe_update_estimate s acked_bitrate recovered in_alr
            at_time
          ≡ some q)
        × IsNotRaised s.rate_control q
        × (q.0.has_once_detected_overuse ≡ true)
  unfolding maybe_update_estimate
  maybe_update_estimate-overusing s acked_bitrate recovered in_alr at_time over ready half =
      let ((r, out), e, (updated, idle)) =
        on_overuse-Lowers s acked_bitrate in_alr at_time over ready half in
      let seen = record r { has_once_detected_overuse = true } in
      let (same, once) = remember-keeps seen out in
      (
        (remember seen out, out),
        simp (over, e, maybe_update_estimate),
        (
          (λ u.
              let (lo, hi, eq) = updated u in
              (lo, hi, ap (λ (a : Aimd F). a.current_bitrate) same ∙ eq)),
          (λ n. same ∙ idle n),
        ),
        once,
      )
