-- ===== src/Aimd/Response.antt =====
-- The divisor of the additive increase of google_cc/aimd_rate_control.cc, the response time.
use gcc_chrome.Common.{
  ◌^◌, ◌<◌, ◌≡◌, ◌≢◌, ◌∙◌, refl, false, inl, inr, Option-cases, Option, some, arith,
}
use gcc_chrome.Common.Double.{Double}
use gcc_chrome.Common.Int.{pos, ◌≤ℤ◌, ◌<ℤ◌, pos_part, ℤ, div_ℤ, quot_ℤ, ◌+ℤ◌}
use gcc_chrome.Unit.{
  Timestamp, TimeDelta, DataSize, DataRate, size_per_time, add, microbits, rate_times, divide,
  divide_double, to_double, seconds,
}
use gcc_chrome.Aimd.{
  RateControlInput, BandwidthUsage, normal, underusing, overusing, last, RateControlState, hold,
  increase, decrease, Aimd, response_time, get_near_max_increase_rate_bps_per_second,
  additive_rate_increase, get_expected_bandwidth_period, increase_of, increase_bitrate,
  new_bitrate_in, apply_state, decrease_bitrate, take_over, initialize, change_state, leave_hold,
  change_bitrate, update, value_or,
}

module _ {ℓ} {F : Type ℓ} where
  -- The round trip time is not negative and is in range, and no experiment runs.
  pub record CanRaise (s : Aimd F) : Type 0 where
    pub calm : s.in_experiment ≡ false
    pub floor : pos 0 ≤ℤ s.rtt
    pub small : pos_part s.rtt < 2 ^ 62

  response_time-positive : (s : Aimd F) → CanRaise s → pos 0 <ℤ response_time s
  unfolding response_time add ◌+ℤ◌ gcc_chrome.Unit.is_plus_infinity
      gcc_chrome.Unit.is_minus_infinity
  response_time-positive s h = ground (arith, h.calm, h.floor, h.small)

div_ℤ-total : (a b : ℤ) → pos 0 <ℤ b → (q : ℤ) × (div_ℤ a b ≡ some q)
unfolding div_ℤ
div_ℤ-total a b h = (quot_ℤ a b, ground arith)

size_per_time-total :
    (size : DataSize) (duration : TimeDelta)
    → pos 0 <ℤ duration
    → (rate : DataRate) × (size_per_time size duration ≡ some rate)
unfolding size_per_time
size_per_time-total size duration h = div_ℤ-total (microbits size) duration h

module _ {ℓ} (F : Type ℓ) ⦃fl : Double F⦄ where
  near_max-total :
      (s : Aimd F)
      → CanRaise s
      → (rate : F) × (get_near_max_increase_rate_bps_per_second F s ≡ some rate)
  unfolding get_near_max_increase_rate_bps_per_second
  near_max-total s h =
      let frame_size = rate_times s.current_bitrate (divide F (seconds 1) 30) in
      let packets =
        fl.ceil (fl.div (to_double {F = F} frame_size) (to_double {F = F} (pos 1200))) in
      let (_, e) =
        size_per_time-total (divide_double frame_size packets) (response_time s)
          (response_time-positive s h) in
      elim (Option-cases (get_near_max_increase_rate_bps_per_second F s)) [
        | inl fault ↦ absurd (ground arith)
        | inr known ↦ known
      ]

  pub get_expected_bandwidth_period-total :
      (s : Aimd F)
      → CanRaise s
      → (period : TimeDelta) × (get_expected_bandwidth_period F s ≡ some period)
  unfolding get_expected_bandwidth_period
  get_expected_bandwidth_period-total s h =
      let (_, e) = near_max-total s h in
      elim (Option-cases (get_expected_bandwidth_period F s)) [
        | inl fault ↦ absurd (ground arith)
        | inr known ↦ known
      ]

  pub increase_of-total :
      (s : Aimd F) (throughput : DataRate) (at_time : Timestamp)
      → CanRaise s
      → (raise : DataRate) × (increase_of F s throughput at_time ≡ some raise)
  unfolding increase_of additive_rate_increase
  increase_of-total s throughput at_time h =
      let (_, e) = near_max-total s h in
      elim (Option-cases (increase_of F s throughput at_time)) [
        | inl fault ↦ absurd (ground arith)
        | inr known ↦ known
      ]

  -- What the response time depends on.
  abbrev pub SameResponse : Aimd F → Aimd F → Type 0
  SameResponse s r = (r.rtt ≡ s.rtt) × (r.in_experiment ≡ s.in_experiment)

  new_bitrate_in-SameResponse :
      (c : RateControlState) (s : Aimd F) (throughput : DataRate) (at_time : Timestamp) (r : Aimd F)
      (o : Option DataRate)
      → new_bitrate_in F c s throughput at_time ≡ some (r, o)
      → SameResponse s r
  unfolding new_bitrate_in increase_bitrate decrease_bitrate
  new_bitrate_in-SameResponse hold s throughput at_time r o e = ground arith
  new_bitrate_in-SameResponse increase s throughput at_time r o e = ground arith
  new_bitrate_in-SameResponse decrease s throughput at_time r o e = ground arith

  apply_state-SameResponse :
      (s : Aimd F) (throughput : DataRate) (at_time : Timestamp) (r : Aimd F)
      → apply_state F s throughput at_time ≡ some r
      → SameResponse s r
  unfolding apply_state take_over
  apply_state-SameResponse s throughput at_time r e =
      elim (Option-cases (new_bitrate_in F s.rate_control_state s throughput at_time)) [
        | inl fault ↦ absurd (ground arith)
        | inr ((q, o), known) ↦
            let same = new_bitrate_in-SameResponse _ s throughput at_time q o known in ground arith
      ]

  pub same_CanRaise : (s r : Aimd F) → SameResponse s r → CanRaise s → CanRaise r
  same_CanRaise s r (e, e') h = record {
    calm = e' ∙ h.calm;
    floor = rw (e) h.floor;
    small = rw (e) h.small;
  }

  initialize-SameResponse :
      (s : Aimd F) (throughput : Option DataRate) (at_time : Timestamp)
      → SameResponse s (initialize s throughput at_time)
  unfolding initialize
  initialize-SameResponse s throughput at_time = ground arith

  change_state-SameResponse :
      (s : Aimd F) (usage : BandwidthUsage) (at_time : Timestamp) (r : Aimd F)
      → change_state s usage at_time ≡ some r
      → SameResponse s r
  unfolding change_state leave_hold
  change_state-SameResponse s usage at_time r e = ground arith

  change_bitrate-SameResponse :
      (s : Aimd F) (input : RateControlInput) (at_time : Timestamp) (r : Aimd F)
      → change_bitrate F s input at_time ≡ some r
      → SameResponse s r
  unfolding change_bitrate
  change_bitrate-SameResponse s input at_time r e =
      let throughput = value_or input.estimated_throughput s.latest_estimated_throughput in
      let known = record s { latest_estimated_throughput = throughput } in
      elim (Option-cases (change_state known input.bw_state at_time)) [
        | inl fault ↦ ground arith
        | inr (c, changed) ↦
            let same = change_state-SameResponse known input.bw_state at_time c changed in
            elim (Option-cases (apply_state F c throughput at_time)) [
              | inl fault ↦ ground arith
              | inr (q, applied) ↦
                  let same' = apply_state-SameResponse c throughput at_time q applied in
                  ground arith
            ]
      ]

  -- No update changes the round trip time.
  pub update-CanRaise :
      (s : Aimd F) (input : RateControlInput) (at_time : Timestamp) (r : Aimd F)
      → update F s input at_time ≡ some r
      → CanRaise s
      → CanRaise r
  unfolding update
  update-CanRaise s input at_time r e h =
      let started = initialize s input.estimated_throughput at_time in
      let (a, b) = initialize-SameResponse s input.estimated_throughput at_time in
      let (a', b') = change_bitrate-SameResponse started input at_time r e in
      same_CanRaise s r (a' ∙ a, b' ∙ b) h

  apply_state-total :
      (s : Aimd F) (throughput : DataRate) (at_time : Timestamp)
      → CanRaise s
      → (r : Aimd F) × (apply_state F s throughput at_time ≡ some r)
  unfolding apply_state new_bitrate_in increase_bitrate
  apply_state-total s throughput at_time h =
      let (_, e) = increase_of-total s throughput at_time h in
      elim (Option-cases (apply_state F s throughput at_time)) [
        | inl fault ↦ absurd (ground arith)
        | inr known ↦ known
      ]

  change_state-total :
      (s : Aimd F) (usage : BandwidthUsage) (at_time : Timestamp)
      → usage ≢ last
      → (r : Aimd F) × (change_state s usage at_time ≡ some r)
  unfolding change_state
  change_state-total s normal at_time signal = (leave_hold s at_time, refl)
  change_state-total s underusing at_time signal = (record s { rate_control_state = hold }, refl)
  change_state-total s overusing at_time signal = (record s { rate_control_state = decrease }, refl)
  change_state-total s last at_time signal = absurd (signal refl)

  -- The rate control faults on `last`, and if it cannot divide by its response time.
  pub update-total :
      (s : Aimd F) (usage : BandwidthUsage) (throughput : Option DataRate) (at_time : Timestamp)
      → CanRaise s
      → usage ≢ last
      → (r : Aimd F) × (update F s
            (record { bw_state = usage; estimated_throughput = throughput })
            at_time
          ≡ some r)
        × CanRaise r
  unfolding update change_bitrate
  update-total s usage throughput at_time h signal =
      let input : RateControlInput = record {
        bw_state = usage;
        estimated_throughput = throughput;
      } in
      let before = initialize s throughput at_time in
      let t = value_or throughput before.latest_estimated_throughput in
      let known = record before { latest_estimated_throughput = t } in
      let (c, changed) = change_state-total known usage at_time signal in
      let ready =
        same_CanRaise known c (change_state-SameResponse known usage at_time c changed)
          (same_CanRaise s known (initialize-SameResponse s throughput at_time) h) in
      let (_, applied) = apply_state-total c t at_time ready in
      elim (Option-cases (update F s input at_time)) [
        | inl fault ↦ absurd (ground arith)
        | inr (r, e) ↦ (r, e, update-CanRaise s input at_time r e h)
      ]
