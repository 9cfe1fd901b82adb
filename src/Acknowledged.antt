-- ===== src/Acknowledged.antt =====
-- chrome_gcc/src/google_cc/bitrate_estimator.h and .cc, and acknowledged_bitrate_estimator.h and .cc:
-- the rate of the acknowledged packets, over windows of time and then as a weighted mean. A product
-- or a sum of two floats is that of doubles, rounded. The flag for small samples, and `in_alr`, whose
-- uses are commented out, are stored or passed on and decide nothing; the default constructor leaves
-- `in_alr_` as it is, so its value is an argument.
pub mod Window
mod Tests
use gcc_chrome.Common.{
  ℕ, ◌+◌, ◌%◌, Bool, true, false, Option, none, some, List, [], ◌∷◌, if◌then◌else◌,
}
use gcc_chrome.Common.Double.{Double}
use gcc_chrome.Common.Int.{ℤ, pos, negsuc, ◌+ℤ◌, ◌-ℤ◌, sub_ℕ, int32, int64, ltb_ℤ, leb_ℤ}
use gcc_chrome.Unit.{
  Timestamp, DataSize, DataRate, add, timestamp_ms, to_double, kilobits_per_sec, size_per_time,
  from_fraction,
}
use gcc_chrome.NetworkTypes.{PacketResult}
use gcc_chrome.LinkCapacity.{int_double, max_double}

pub record BitrateEstimator {ℓ} (F : Type ℓ) : Type ℓ where
  pub sum : ℤ
  pub initial_window_ms : ℕ
  pub noninitial_window_ms : ℕ
  pub uncertainty_scale : F
  pub uncertainty_symmetry_cap : DataRate
  pub estimate_floor : DataRate
  pub current_window_ms : ℤ
  pub prev_time_ms : ℤ
  pub bitrate_estimate_kbps : F
  pub bitrate_estimate_var : F

-- The remainder of C++ by a positive number has the sign of the dividend.
unfoldable pub rem : ℤ → ℕ → ℤ
rem (pos n) d = pos (n % d)
rem (negsuc n) d = sub_ℕ 0 ((n + 1) % d)

module _ {ℓ} {F : Type ℓ} ⦃fl : Double F⦄ where
  abbrev add_float : F → F → F
  add_float x y = fl.single (fl.add x y)

  abbrev sub_float : F → F → F
  sub_float x y = fl.single (fl.sub x y)

  abbrev mul_float : F → F → F
  mul_float x y = fl.single (fl.mul x y)

  abbrev pub div_float : F → F → F
  div_float x y = fl.single (fl.div x y)

  abbrev pub min_double : F → F → F
  min_double a b = if fl.lt b a then b else a

  unfoldable pub new_bitrate_estimator : BitrateEstimator F
  new_bitrate_estimator = record {
    sum = pos 0;
    initial_window_ms = 500;
    noninitial_window_ms = 150;
    uncertainty_scale = int_double 10;
    uncertainty_symmetry_cap = pos 0;
    estimate_floor = pos 0;
    current_window_ms = pos 0;
    prev_time_ms = negsuc 0;
    bitrate_estimate_kbps = fl.of_int (negsuc 0);
    bitrate_estimate_var = int_double 50;
  }

  -- `8.0f * sum_ / static_cast<float>(rate_window_ms)`
  unfoldable pub sample_of : ℤ → ℕ → F
  sample_of sum rate_window_ms =
      div_float (mul_float (int_double 8) (fl.single (fl.of_int sum)))
        (fl.single (int_double rate_window_ms))

  -- `UpdateWindow` up to the sample: the time moves on.
  unfoldable pub advance : BitrateEstimator F → ℤ → ℕ → BitrateEstimator F
  advance s now_ms rate_window_ms =
      let restarted =
        if ltb_ℤ now_ms s.prev_time_ms
        then record s { prev_time_ms = negsuc 0; sum = pos 0; current_window_ms = pos 0 }
        else s in
      let elapsed = int64 (now_ms -ℤ restarted.prev_time_ms) in
      let longer = int64 (restarted.current_window_ms +ℤ elapsed) in
      let moved =
        if leb_ℤ (pos 0) restarted.prev_time_ms
        then (if ltb_ℤ (pos rate_window_ms) elapsed
            then record restarted { sum = pos 0; current_window_ms = rem longer rate_window_ms }
            else record restarted { current_window_ms = longer })
        else restarted in
      record moved { prev_time_ms = now_ms }

  unfoldable pub update_window : BitrateEstimator F → ℤ → ℤ → ℕ → BitrateEstimator F × F
  update_window s now_ms bytes rate_window_ms =
      let moved = advance s now_ms rate_window_ms in
      if leb_ℤ (pos rate_window_ms) moved.current_window_ms
      then (
        record moved {
          current_window_ms = int64 (moved.current_window_ms -ℤ pos rate_window_ms);
          sum = int32 (pos 0 +ℤ bytes);
        },
        sample_of moved.sum rate_window_ms,
      )
      else (record moved { sum = int32 (moved.sum +ℤ bytes) }, fl.of_int (negsuc 0))

  -- `kbps<float>()` of a rate.
  unfoldable pub kbps_float : DataRate → F
  kbps_float rate =
      mul_float (fl.single (to_double rate)) (div_float (int_double 1) (int_double 1000))

  -- The end of `Update`: the new sample is weighed against the estimate.
  unfoldable pub weigh : BitrateEstimator F → F → BitrateEstimator F
  weigh s sample =
      let estimate = s.bitrate_estimate_kbps in
      let uncertainty =
        div_float (mul_float (fl.single s.uncertainty_scale) (fl.fabs (sub_float estimate sample)))
          (add_float estimate (min_double sample (kbps_float s.uncertainty_symmetry_cap))) in
      let sample_var = mul_float uncertainty uncertainty in
      let pred_var = add_float s.bitrate_estimate_var (int_double 5) in
      let total = add_float sample_var pred_var in
      let mean =
        div_float (add_float (mul_float sample_var estimate) (mul_float pred_var sample)) total in
      record s {
        bitrate_estimate_kbps = max_double mean (kbps_float s.estimate_floor);
        bitrate_estimate_var = div_float (mul_float sample_var pred_var) total;
      }

  unfoldable pub window_of : BitrateEstimator F → ℕ
  window_of s =
      if fl.lt s.bitrate_estimate_kbps (int_double 0)
      then s.initial_window_ms
      else s.noninitial_window_ms

  unfoldable pub update : BitrateEstimator F → Timestamp → DataSize → BitrateEstimator F
  update s at_time amount =
      let (next, sample) = update_window s (timestamp_ms at_time) (int32 amount) (window_of s) in
      if fl.lt sample (int_double 0)
      then next
      else if fl.lt s.bitrate_estimate_kbps (int_double 0)
      then record next { bitrate_estimate_kbps = sample }
      else weigh next sample

  unfoldable pub bitrate : BitrateEstimator F → Option DataRate
  bitrate s =
      if fl.lt s.bitrate_estimate_kbps (int_double 0)
      then none
      else some (kilobits_per_sec s.bitrate_estimate_kbps)

  -- The outer `none`: the division is undefined.
  unfoldable pub peek_rate : BitrateEstimator F → Option (Option DataRate)
  peek_rate s =
      if ltb_ℤ (pos 0) s.current_window_ms
      then elim (size_per_time s.sum (from_fraction 1000 s.current_window_ms)) [
        | none ↦ none
        | some rate ↦ some (some rate)
      ]
      else some none

  unfoldable pub expect_fast_rate_change : BitrateEstimator F → BitrateEstimator F
  expect_fast_rate_change s = record s {
    bitrate_estimate_var = add_float s.bitrate_estimate_var (int_double 200);
  }

pub record AcknowledgedBitrateEstimator {ℓ} (F : Type ℓ) : Type ℓ where
  pub alr_ended_time : Option Timestamp
  pub in_alr : Bool
  pub bitrate_estimator : BitrateEstimator F

-- `alr_ended_time_ && send_time > *alr_ended_time_`
abbrev alr_ended : Option Timestamp → Timestamp → Bool
alr_ended none send_time = false
alr_ended (some time) send_time = ltb_ℤ time send_time

module _ {ℓ} {F : Type ℓ} where
  unfoldable pub set_alr_ended_time :
      AcknowledgedBitrateEstimator F → Timestamp → AcknowledgedBitrateEstimator F
  set_alr_ended_time s time = record s { alr_ended_time = some time }

  unfoldable pub set_alr : AcknowledgedBitrateEstimator F → Bool → AcknowledgedBitrateEstimator F
  set_alr s in_alr = record s { in_alr = in_alr }

module _ {ℓ} {F : Type ℓ} ⦃fl : Double F⦄ where
  unfoldable pub new_acknowledged : Bool → AcknowledgedBitrateEstimator F
  unfolding new_bitrate_estimator
  new_acknowledged in_alr = record {
    alr_ended_time = none;
    in_alr = in_alr;
    bitrate_estimator = new_bitrate_estimator;
  }

  -- The body of the loop of `IncomingPacketFeedbackVector`.
  unfoldable pub incoming_packet :
      AcknowledgedBitrateEstimator F → PacketResult → AcknowledgedBitrateEstimator F
  unfolding expect_fast_rate_change
  incoming_packet s packet =
      let expecting =
        if alr_ended s.alr_ended_time packet.sent_packet.send_time
        then record s {
          bitrate_estimator = expect_fast_rate_change s.bitrate_estimator;
          alr_ended_time = none;
        }
        else s in
      record expecting {
        bitrate_estimator =
            update expecting.bitrate_estimator packet.receive_time
              (add packet.sent_packet.size packet.sent_packet.prior_unacked_data);
      }

  unfoldable pub incoming_packet_feedback_vector :
      AcknowledgedBitrateEstimator F → List PacketResult → AcknowledgedBitrateEstimator F
  incoming_packet_feedback_vector s [] = s
  incoming_packet_feedback_vector s (p ∷ ps) =
      incoming_packet_feedback_vector (incoming_packet s p) ps

  unfoldable pub acknowledged_bitrate : AcknowledgedBitrateEstimator F → Option DataRate
  acknowledged_bitrate s = bitrate s.bitrate_estimator
