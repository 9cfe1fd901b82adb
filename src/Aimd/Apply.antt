-- ===== src/Aimd/Apply.antt =====
-- The cases of `ChangeBitrate`: what each state makes of the rate.
use gcc_chrome.Common.{
  ◌≡◌, refl, ap, ◌∙◌, true, inl, inr, Bool-cases, Option, none, some, if◌then◌else◌, arith,
}
use gcc_chrome.Common.Double.{Double}
use gcc_chrome.Common.Int.{◌≤ℤ◌, max_ℤ, min_ℤ}
use gcc_chrome.Unit.{Timestamp, DataRate, add}
use gcc_chrome.Aimd.{
  capacity_for, increase_of, may_increase, RateControlState, hold, increase, decrease, Aimd,
  initialize, clamp_bitrate, increase_bitrate, decrease_bitrate, new_bitrate_in, take_over,
  apply_state, throughput_based_limit, value_or,
}

module _ {ℓ} (F : Type ℓ) ⦃fl : Double F⦄ where
  pub decrease_bitrate-keeps :
      (s : Aimd F) (throughput : DataRate) (at_time : Timestamp)
      → let r = decrease_bitrate F s throughput at_time in
        (r.0.current_bitrate ≡ s.current_bitrate)
        × (r.0.min_configured_bitrate ≡ s.min_configured_bitrate)
        × (r.0.rate_control_state ≡ hold)
        × (r.0.bitrate_is_initialized ≡ true)
        × (value_or r.1 s.current_bitrate ≤ℤ s.current_bitrate)
  unfolding decrease_bitrate
  decrease_bitrate-keeps s throughput at_time = ground arith

  -- A rate of at least the minimum, and of no more than a bound, or than the minimum if that is larger.
  abbrev pub IsBetween : Aimd F → Aimd F → DataRate → Type 0
  IsBetween s r bound =
      (r.min_configured_bitrate ≡ s.min_configured_bitrate)
      × (s.min_configured_bitrate ≤ℤ r.current_bitrate)
      × (r.current_bitrate ≤ℤ max_ℤ bound s.min_configured_bitrate)

  pub take_over-IsBetween :
      (s r : Aimd F) (rate : Option DataRate) (bound : DataRate)
      → r.current_bitrate ≡ s.current_bitrate
      → r.min_configured_bitrate ≡ s.min_configured_bitrate
      → value_or rate s.current_bitrate ≤ℤ bound
      → let t = take_over F (r, rate) in
        IsBetween s t bound
        × (t.rate_control_state ≡ r.rate_control_state)
        × (t.bitrate_is_initialized ≡ r.bitrate_is_initialized)
  unfolding take_over clamp_bitrate
  take_over-IsBetween s r rate bound e e' h = ground arith

  pub apply_in :
      (s : Aimd F) (c : RateControlState) (throughput : DataRate) (at_time : Timestamp)
      (r : Aimd F × Option DataRate)
      → s.rate_control_state ≡ c
      → new_bitrate_in F c s throughput at_time ≡ some r
      → apply_state F s throughput at_time ≡ some (take_over F r)
  unfolding apply_state
  apply_in s c throughput at_time r e e' =
      ap (λ d. then_take (new_bitrate_in F d s throughput at_time)) e ∙ ap then_take e'
    where
      then_take : Option (Aimd F × Option DataRate) → Option (Aimd F)
      then_take o = elim o [ none ↦ none | some r ↦ some (take_over F r) ]

  -- What the rate becomes when it may be raised by an increase.
  abbrev pub raised_by : Aimd F → DataRate → DataRate → DataRate
  raised_by s throughput inc =
      if may_increase F s throughput
      then min_ℤ (add s.current_bitrate inc) (throughput_based_limit F throughput)
      else s.current_bitrate

  increase_bitrate-eq :
      (s : Aimd F) (throughput inc : DataRate) (at_time : Timestamp)
      → increase_of F s throughput at_time ≡ some inc
      → let changed = record s {
        link_capacity = capacity_for F s throughput;
        time_last_bitrate_change = at_time;
      } in
        (o : Option DataRate) × (increase_bitrate F s throughput at_time ≡ some (changed, o))
        × (value_or o s.current_bitrate ≡ raised_by s throughput inc)
  unfolding increase_bitrate
  increase_bitrate-eq s throughput inc at_time e = elim (Bool-cases (may_increase F s throughput)) [
    | inl allowed ↦ (
      some (min_ℤ (add s.current_bitrate inc) (throughput_based_limit F throughput)),
      rw (allowed, increase_bitrate, e) refl,
      rw (allowed) refl,
    )
    | inr barred ↦ (none, rw (barred, increase_bitrate) refl, rw (barred) refl)
  ]

  pub apply_increase :
      (s : Aimd F) (throughput inc : DataRate) (at_time : Timestamp)
      → s.rate_control_state ≡ increase
      → increase_of F s throughput at_time ≡ some inc
      → (r : Aimd F) × (apply_state F s throughput at_time ≡ some r)
        × (r.current_bitrate ≡ max_ℤ (raised_by s throughput inc) s.min_configured_bitrate)
        × (r.rate_control_state ≡ increase)
        × (r.bitrate_is_initialized ≡ s.bitrate_is_initialized)
  unfolding new_bitrate_in take_over clamp_bitrate
  apply_increase s throughput inc at_time e raise =
      let (o, eq, rate) = increase_bitrate-eq s throughput inc at_time raise in
      let changed = record s {
        link_capacity = capacity_for F s throughput;
        time_last_bitrate_change = at_time;
      } in
      (
        take_over F (changed, o),
        apply_in s increase throughput at_time (changed, o) e eq,
        ap (λ n. max_ℤ n s.min_configured_bitrate) rate,
        e,
        refl,
      )

  pub apply_decrease :
      (s : Aimd F) (throughput : DataRate) (at_time : Timestamp)
      → s.rate_control_state ≡ decrease
      → (r : Aimd F) × (apply_state F s throughput at_time ≡ some r)
        × IsBetween s r s.current_bitrate
        × (r.rate_control_state ≡ hold)
        × (r.bitrate_is_initialized ≡ true)
  unfolding new_bitrate_in
  apply_decrease s throughput at_time e =
      let (same, floor, state, ready, bound) = decrease_bitrate-keeps s throughput at_time in
      let r = decrease_bitrate F s throughput at_time in
      let (between, state', ready') = take_over-IsBetween s r.0 r.1 _ same floor bound in
      (
        take_over F r,
        apply_in s decrease throughput at_time r e refl,
        between,
        state' ∙ state,
        ready' ∙ ready,
      )

  pub apply_hold :
      (s : Aimd F) (throughput : DataRate) (at_time : Timestamp)
      → s.rate_control_state ≡ hold
      → apply_state F s throughput at_time
        ≡ some (record s { current_bitrate = max_ℤ s.current_bitrate s.min_configured_bitrate })
  unfolding new_bitrate_in take_over clamp_bitrate
  apply_hold s throughput at_time e = apply_in s hold throughput at_time (s, none) e refl

  pub initialize-keeps :
      (s : Aimd F) (throughput : Option DataRate) (at_time : Timestamp)
      → let r = initialize s throughput at_time in
        (r.min_configured_bitrate ≡ s.min_configured_bitrate)
        × (r.rate_control_state ≡ s.rate_control_state)
        × ((s.bitrate_is_initialized ≡ true) → r ≡ s)
  unfolding initialize
  initialize-keeps s throughput at_time = ground arith
