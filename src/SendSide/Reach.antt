-- ===== src/SendSide/Reach.antt =====
-- What the sender's estimator promises after any sequence of calls.
use gcc_chrome.Common.{refl, List, [], ◌∷◌, arith}
use gcc_chrome.Common.Double.{Double}
use gcc_chrome.Common.Int.{◌≤ℤ◌, max_ℤ}
use gcc_chrome.Common.Lists.{All}
use gcc_chrome.SendSide.{SendSide, new_send_side, min_bitrate}
use gcc_chrome.SendSide.Target.{target_rate}
use gcc_chrome.SendSide.Limits.{IsSound, IsLimited}
use gcc_chrome.SendSide.Events.{Event, IsValid, KeepsRange, step, step-Keeps}

module _ {ℓ} {F : Type ℓ} ⦃fl : Double F⦄ where
  pub run : SendSide F → List Event → SendSide F
  run s [] = s
  run s (e ∷ es) = run (step s e) es

  run-Keeps :
      (s : SendSide F) (es : List Event)
      → IsSound s
      → All IsValid es
      → IsSound (run s es) × (All KeepsRange es → IsLimited s → IsLimited (run s es))
  unfolding run
  run-Keeps s [] h v = (h, λ k l. l)
  run-Keeps s (e ∷ es) h (v, vs) =
      let (a, b) = step-Keeps s e h v in
      let (a', b') = run-Keeps (step s e) es a vs in (a', λ ks l. b' ks.1 (b ks.0 l))

module _ {ℓ} (F : Type ℓ) ⦃fl : Double F⦄ where
  new-IsSound : IsSound (new_send_side {F = F}) × IsLimited (new_send_side {F = F})
  unfolding new_send_side
  new-IsSound = (
    record {
      floor = omega arith;
      range = omega arith;
      fraction = omega arith;
      few = omega arith;
      caps = refl;
      losses = omega arith;
    },
    omega arith,
  )

  -- After any calls whose reports lose no more packets than they cover, that configure no minimum above
  -- the default maximum, and of which none moves the range without setting the target, the target is
  -- in the configured range, whose minimum is at least 5 kbps. The rate to send at is at most the
  -- maximum, and at most what the receiver asks for, or the minimum if that is larger.
  pub target_rate_in_range :
      (es : List Event)
      → All IsValid es
      → All KeepsRange es
      → let s = run (new_send_side {F = F}) es in
        (min_bitrate ≤ℤ s.min_bitrate_configured)
        × (s.min_bitrate_configured ≤ℤ s.current_target)
        × (s.current_target ≤ℤ s.max_bitrate_configured)
        × (target_rate s ≤ℤ s.max_bitrate_configured)
        × (target_rate s ≤ℤ max_ℤ s.min_bitrate_configured s.receiver_limit)
  unfolding target_rate
  target_rate_in_range es v ks =
      let (sound, limits) = run-Keeps new_send_side es new-IsSound.0 v in
      let (lo, hi) = limits ks new-IsSound.1 in (sound.floor, lo, hi, ground arith, ground arith)
