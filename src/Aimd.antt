-- ===== src/Aimd.antt =====
-- chrome_gcc/src/google_cc/aimd_rate_control.h and .cc: the delay-based rate, raised while the network
-- is not overused and cut when it is. Left out is `max_configured_bitrate_`, which
-- nothing reads after the constructor.
pub mod Apply
pub mod Machine
pub mod Rate
pub mod Response
mod Tests
use gcc_chrome.Common.{
  ℕ, Bool, true, false, Option, none, some, not, ◌&&◌, ◌||◌, ltb, if◌then◌else◌,
}
use gcc_chrome.Common.Double.{Double}
use gcc_chrome.Common.Int.{ℤ, pos, ◌*ℤ◌, int64, ltb_ℤ, leb_ℤ, max_ℤ, min_ℤ}
use gcc_chrome.Unit.{
  Timestamp, TimeDelta, DataRate, DataSize, plus_infinity, minus_infinity, is_infinite, is_finite,
  add, sub, clamped, seconds, millis, scale, divide, divide_double, from_double, to_double,
  to_seconds, seconds_double, rate_times, size_per_time, size_per_rate,
}
use gcc_chrome.NetworkTypes.{NetworkStateEstimate}
use gcc_chrome.SendSide.{min_bitrate}
use gcc_chrome.LinkCapacity.{
  LinkCapacityEstimator, new_link_capacity_estimator, has_estimate, reset, upper_bound, lower_bound,
  on_overuse_detected, estimate_of,
}

-- network_state_predictor.h; `last` ends the enumeration and is no state.
pub data BandwidthUsage : Type 0 where
  normal underusing overusing last : BandwidthUsage

pub record RateControlInput : Type 0 where
  pub bw_state : BandwidthUsage
  pub estimated_throughput : Option DataRate

pub data RateControlState : Type 0 where
  hold increase decrease : RateControlState

pub record Aimd {ℓ} (F : Type ℓ) : Type ℓ where
  pub min_configured_bitrate : DataRate
  pub current_bitrate : DataRate
  pub latest_estimated_throughput : DataRate
  pub link_capacity : LinkCapacityEstimator F
  pub rate_control_state : RateControlState
  pub time_last_bitrate_change : Timestamp
  pub time_last_bitrate_decrease : Timestamp
  pub time_first_throughput_estimate : Timestamp
  pub bitrate_is_initialized : Bool
  pub beta : F
  pub in_alr : Bool
  pub rtt : TimeDelta
  pub send_side : Bool
  pub in_experiment : Bool
  pub last_decrease : Option DataRate
  pub network_estimate : Option (NetworkStateEstimate F)

abbrev pub value_or {ℓ} : {A : Type ℓ} → Option A → A → A
value_or none b = b
value_or (some a) b = a

abbrev pub has_value {ℓ} : {A : Type ℓ} → Option A → Bool
has_value none = false
has_value (some a) = true

abbrev pub is_overusing : BandwidthUsage → Bool
is_overusing overusing = true
is_overusing _ = false

module _ {ℓ} {F : Type ℓ} ⦃fl : Double F⦄ where
  unfoldable pub new_aimd : Bool → Aimd F
  unfolding new_link_capacity_estimator
  new_aimd send_side = record {
    min_configured_bitrate = min_bitrate;
    current_bitrate = pos 30_000_000;
    latest_estimated_throughput = pos 30_000_000;
    link_capacity = new_link_capacity_estimator;
    rate_control_state = hold;
    time_last_bitrate_change = minus_infinity;
    time_last_bitrate_decrease = minus_infinity;
    time_first_throughput_estimate = minus_infinity;
    bitrate_is_initialized = false;
    beta = fl.decimal (pos 85) 2;
    in_alr = false;
    rtt = millis 200;
    send_side = send_side;
    in_experiment = false;
    last_decrease = none;
    network_estimate = none;
  }

module _ {ℓ} {F : Type ℓ} where
  unfoldable pub set_start_bitrate : Aimd F → DataRate → Aimd F
  set_start_bitrate s start_bitrate = record s {
    current_bitrate = start_bitrate;
    latest_estimated_throughput = start_bitrate;
    bitrate_is_initialized = true;
  }

  unfoldable pub set_min_bitrate : Aimd F → DataRate → Aimd F
  set_min_bitrate s min_rate = record s {
    min_configured_bitrate = min_rate;
    current_bitrate = max_ℤ min_rate s.current_bitrate;
  }

  unfoldable pub set_rtt : Aimd F → TimeDelta → Aimd F
  set_rtt s rtt = record s { rtt = rtt }

  unfoldable pub set_network_state_estimate : Aimd F → Option (NetworkStateEstimate F) → Aimd F
  set_network_state_estimate s estimate = record s { network_estimate = estimate }

  unfoldable pub set_in_application_limited_region : Aimd F → Bool → Aimd F
  set_in_application_limited_region s in_alr = record s { in_alr = in_alr }

  unfoldable pub clamp_bitrate : Aimd F → DataRate → DataRate
  clamp_bitrate s new_bitrate = max_ℤ new_bitrate s.min_configured_bitrate

  -- `response_time` of GetNearMaxIncreaseRateBpsPerSecond, the divisor there.
  unfoldable pub response_time : Aimd F → TimeDelta
  response_time s =
      let once = add s.rtt (millis 100) in if s.in_experiment then int64 (once *ℤ pos 2) else once

  unfoldable pub set_estimate : Aimd F → DataRate → Timestamp → Aimd F
  set_estimate s bitrate at_time =
      let clamped_rate = clamp_bitrate s bitrate in
      record s {
        bitrate_is_initialized = true;
        current_bitrate = clamped_rate;
        time_last_bitrate_change = at_time;
        time_last_bitrate_decrease =
            if ltb_ℤ clamped_rate s.current_bitrate then at_time else s.time_last_bitrate_decrease;
      }

  unfoldable pub initial_time_to_reduce_further : Aimd F → Bool
  initial_time_to_reduce_further s = is_infinite s.time_last_bitrate_decrease

  -- `ChangeState` on a normal network.
  unfoldable pub leave_hold : Aimd F → Timestamp → Aimd F
  leave_hold s at_time = elim s.rate_control_state [
    | hold ↦ record s { time_last_bitrate_change = at_time; rate_control_state = increase }
    | _ ↦ s
  ]

  -- `none`: the assertion fails.
  unfoldable pub change_state : Aimd F → BandwidthUsage → Timestamp → Option (Aimd F)
  change_state s normal at_time = some (leave_hold s at_time)
  change_state s overusing at_time = some (record s { rate_control_state = decrease })
  change_state s underusing at_time = some (record s { rate_control_state = hold })
  change_state s last at_time = none

  -- The start of `Update`: the first throughput that is known for five seconds is taken over.
  unfoldable pub initialize : Aimd F → Option DataRate → Timestamp → Aimd F
  initialize s none at_time = s
  initialize s (some throughput) at_time =
      if s.bitrate_is_initialized
      then s
      else if is_infinite s.time_first_throughput_estimate
      then record s { time_first_throughput_estimate = at_time }
      else if ltb_ℤ (seconds 5) (sub at_time s.time_first_throughput_estimate)
      then record s { current_bitrate = throughput; bitrate_is_initialized = true }
      else s

module _ {ℓ} (F : Type ℓ) ⦃fl : Double F⦄ where
  -- `none`: the division is undefined.
  unfoldable pub get_feedback_interval : Aimd F → Option TimeDelta
  get_feedback_interval s =
      elim (size_per_rate (pos 80) (scale s.current_bitrate (fl.decimal (pos 5) 2))) [
        | none ↦ none
        | some interval ↦ some (clamped interval (millis 200) (millis 1000))
      ]

  unfoldable pub time_to_reduce_further : Aimd F → Timestamp → DataRate → Bool
  time_to_reduce_further s at_time estimated_throughput =
      let interval = clamped s.rtt (millis 10) (millis 200) in
      if leb_ℤ interval (sub at_time s.time_last_bitrate_change)
      then true
      else s.bitrate_is_initialized
        && ltb_ℤ estimated_throughput (scale s.current_bitrate (fl.decimal (pos 5) 1))

  -- `none`, here and in what follows: the division by the response time is undefined.
  unfoldable pub get_near_max_increase_rate_bps_per_second : Aimd F → Option F
  get_near_max_increase_rate_bps_per_second s =
      let frame_size = rate_times s.current_bitrate (divide F (seconds 1) 30) in
      let packets_per_frame = fl.ceil (fl.div (to_double frame_size) (to_double (pos 1200))) in
      let avg_packet_size = divide_double frame_size packets_per_frame in
      elim (size_per_time avg_packet_size (response_time s)) [
        | none ↦ none
        | some rate ↦ some (
            if fl.lt (fl.of_int (pos 4000)) (to_double rate)
            then to_double rate
            else fl.of_int (pos 4000))
      ]

  unfoldable pub get_expected_bandwidth_period : Aimd F → Option TimeDelta
  get_expected_bandwidth_period s = elim (get_near_max_increase_rate_bps_per_second s) [
    | none ↦ none
    | some per_second ↦ some (elim s.last_decrease [
      | none ↦ seconds 3
      | some rate ↦
          clamped (seconds_double (fl.div (fl.of_int rate) per_second)) (seconds 2) (seconds 50)
    ])
  ]

  unfoldable pub multiplicative_rate_increase : Timestamp → Timestamp → DataRate → DataRate
  multiplicative_rate_increase at_time last_time current_bitrate =
      let base = fl.decimal (pos 108) 2 in
      let one = fl.of_int (pos 1) in
      let elapsed = to_seconds (sub at_time last_time) in
      let alpha =
        if is_finite last_time
        then fl.pow base (if fl.lt one elapsed then one else elapsed)
        else base in
      max_ℤ (scale current_bitrate (fl.sub alpha one)) (pos 1000)

  unfoldable pub additive_rate_increase : Aimd F → Timestamp → Timestamp → Option DataRate
  additive_rate_increase s at_time last_time = elim (get_near_max_increase_rate_bps_per_second s) [
    | none ↦ none
    | some per_second ↦ some (from_double (fl.mul per_second (to_seconds (sub at_time last_time))))
  ]

  abbrev pub throughput_based_limit : DataRate → DataRate
  throughput_based_limit estimated_throughput =
      add (scale estimated_throughput (fl.decimal (pos 15) 1)) (pos 10_000)

  -- The parts of the case kRcIncrease of `ChangeBitrate`: the capacity, the increase, and the test.
  abbrev pub capacity_for : Aimd F → DataRate → LinkCapacityEstimator F
  capacity_for s throughput =
      if ltb_ℤ (upper_bound s.link_capacity) throughput
      then reset s.link_capacity
      else s.link_capacity

  unfoldable pub increase_of : Aimd F → DataRate → Timestamp → Option DataRate
  increase_of s throughput at_time =
      if has_estimate (capacity_for s throughput)
      then additive_rate_increase s at_time s.time_last_bitrate_change
      else some (multiplicative_rate_increase at_time s.time_last_bitrate_change s.current_bitrate)

  unfoldable pub may_increase : Aimd F → DataRate → Bool
  may_increase s throughput =
      ltb_ℤ s.current_bitrate (throughput_based_limit throughput) && not (s.send_side && s.in_alr)

  -- The case kRcIncrease, with the new bit rate.
  unfoldable pub increase_bitrate :
      Aimd F → DataRate → Timestamp → Option (Aimd F × Option DataRate)
  unfolding may_increase
  increase_bitrate s throughput at_time =
      let changed = record s {
        link_capacity = capacity_for s throughput;
        time_last_bitrate_change = at_time;
      } in
      if may_increase s throughput
      then elim (increase_of s throughput at_time) [
        | none ↦ none
        | some raise ↦ some (
          changed,
          some (min_ℤ (add s.current_bitrate raise) (throughput_based_limit throughput)),
        )
      ]
      else some (changed, none)

  -- The case kRcDecrease.
  unfoldable pub decrease_bitrate : Aimd F → DataRate → Timestamp → Aimd F × Option DataRate
  decrease_bitrate s throughput at_time =
      let measured = scale throughput s.beta in
      let decreased =
        if ltb_ℤ s.current_bitrate measured
        then elim (estimate_of s.link_capacity) [
          | none ↦ measured
          | some estimate ↦ scale estimate s.beta
        ]
        else measured in
      let new_bitrate = if ltb_ℤ decreased s.current_bitrate then some decreased else none in
      let capacity =
        if ltb_ℤ throughput (lower_bound s.link_capacity)
        then reset s.link_capacity
        else s.link_capacity in
      (
        record s {
          last_decrease =
              if s.bitrate_is_initialized && ltb_ℤ throughput s.current_bitrate
              then some (elim new_bitrate [ none ↦ pos 0 | some rate ↦ sub s.current_bitrate rate ])
              else s.last_decrease;
          bitrate_is_initialized = true;
          link_capacity = on_overuse_detected capacity throughput;
          rate_control_state = hold;
          time_last_bitrate_change = at_time;
          time_last_bitrate_decrease = at_time;
        },
        new_bitrate,
      )

  -- The switch of `ChangeBitrate`, and what follows it.
  unfoldable pub new_bitrate_in :
      RateControlState → Aimd F → DataRate → Timestamp → Option (Aimd F × Option DataRate)
  new_bitrate_in hold s throughput at_time = some (s, none)
  new_bitrate_in increase s throughput at_time = increase_bitrate s throughput at_time
  new_bitrate_in decrease s throughput at_time = some (decrease_bitrate s throughput at_time)

  unfoldable pub take_over : Aimd F × Option DataRate → Aimd F
  take_over (s, new_bitrate) = record s {
    current_bitrate = clamp_bitrate s (value_or new_bitrate s.current_bitrate);
  }

  unfoldable pub apply_state : Aimd F → DataRate → Timestamp → Option (Aimd F)
  apply_state s throughput at_time =
      elim (new_bitrate_in s.rate_control_state s throughput at_time) [
        | none ↦ none
        | some r ↦ some (take_over r)
      ]

  unfoldable pub change_bitrate : Aimd F → RateControlInput → Timestamp → Option (Aimd F)
  change_bitrate s input at_time =
      let throughput = value_or input.estimated_throughput s.latest_estimated_throughput in
      let known = record s { latest_estimated_throughput = throughput } in
      if not s.bitrate_is_initialized && not (is_overusing input.bw_state)
      then some known
      else elim (change_state known input.bw_state at_time) [
        | none ↦ none
        | some changed ↦ apply_state changed throughput at_time
      ]

  -- `Update` returns the new object's current bit rate.
  unfoldable pub update : Aimd F → RateControlInput → Timestamp → Option (Aimd F)
  update s input at_time =
      change_bitrate (initialize s input.estimated_throughput at_time) input at_time
