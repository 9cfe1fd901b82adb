-- ===== src/Controller.antt =====
-- chrome_gcc/src/google_cc/goog_cc_network_control.h and .cc, with the constraints, configurations and
-- updates of common/network_types.h and common/network_control.h: the controller that joins the
-- estimators. `none` is a fault of the delay-based estimator. Left out are
-- the calls of `UpdatePropagationRtt`, `OnSentPacket` and `IncomingPacketFeedbackVector` of the
-- send-side estimator, which do nothing, and the handlers that return an empty update.
pub mod Feedback
pub mod Constraints
pub mod Network
pub mod Reach
mod Tests
use gcc_chrome.Common.{
  ℕ, ◌+◌, ◌%◌, ◌^◌, Bool, true, false, Option, none, some, List, [], if◌then◌else◌,
}
use gcc_chrome.Common.Double.{Double}
use gcc_chrome.Common.Int.{ℤ, pos, ltb_ℤ, max_ℤ}
use gcc_chrome.Unit.{Timestamp, TimeDelta, DataRate, plus_infinity, minus_infinity}
use gcc_chrome.NetworkTypes.{NetworkStateEstimate, SentPacket, TransportLossReport}
use gcc_chrome.SendSide.{SendSide, new_send_side, min_bitrate}
use gcc_chrome.SendSide.Target.{target_rate, set_bitrates, update_receiver_estimate, update_rtt}
use gcc_chrome.SendSide.Estimate.{update_packets_lost}
use gcc_chrome.Aimd.{value_or}
use gcc_chrome.Acknowledged.{AcknowledgedBitrateEstimator, new_acknowledged}
use gcc_chrome.DelayBased.{DelayBasedBwe, Result, no_result, new_delay_based_bwe}
use gcc_chrome.DelayBased.Update as Delay

pub record TargetRateConstraints : Type 0 where
  pub at_time : Timestamp
  pub min_data_rate : Option DataRate
  pub max_data_rate : Option DataRate
  pub starting_rate : Option DataRate

-- The fields of `NetworkControllerConfig` that are read.
pub record Config {ℓ} (F : Type ℓ) : Type ℓ where
  pub constraints : TargetRateConstraints
  pub pacing_factor : Option F
  pub min_total_allocated_bitrate : Option DataRate
  pub max_padding_rate : Option DataRate

pub record Controller {ℓ} (F : Type ℓ) : Type ℓ where
  pub packet_feedback_only : Bool
  pub bandwidth_estimation : SendSide F
  pub delay_based_bwe : DelayBasedBwe F
  pub recent_result : Result
  pub acknowledged : AcknowledgedBitrateEstimator F
  pub min_target_rate : DataRate
  pub min_data_rate : DataRate
  pub max_data_rate : DataRate
  pub starting_rate : Option DataRate
  pub first_packet_sent : Bool
  pub next_loss_update : Timestamp
  pub lost_packets_since_last_loss_update : ℕ
  pub expected_packets_since_last_loss_update : ℕ
  pub feedback_max_rtts : List ℤ
  pub last_loss_based_target_rate : DataRate
  pub last_pushback_target_rate : DataRate
  pub last_stable_target_rate : DataRate
  pub last_estimated_fraction_loss : Option ℕ
  pub last_estimated_round_trip_time : TimeDelta
  pub last_packet_received_time : Timestamp
  pub estimate : Option (NetworkStateEstimate F)
  pub pacing_factor : F
  pub min_total_allocated_bitrate : DataRate
  pub max_padding_rate : DataRate

module _ {ℓ} {F : Type ℓ} ⦃fl : Double F⦄ where
  -- The object that the constructor makes for a starting rate. The Booleans are what the constructors
  -- of the estimators leave as it is.
  unfoldable pub started : Config F → DataRate → Bool → Bool → Controller F
  unfolding Delay.set_min_bitrate
  started config rate has_predictor in_alr = record {
    packet_feedback_only = false;
    bandwidth_estimation = new_send_side;
    delay_based_bwe = Delay.set_min_bitrate (new_delay_based_bwe has_predictor) min_bitrate;
    recent_result = no_result;
    acknowledged = new_acknowledged in_alr;
    min_target_rate = pos 0;
    min_data_rate = pos 0;
    max_data_rate = plus_infinity;
    starting_rate = none;
    first_packet_sent = false;
    next_loss_update = minus_infinity;
    lost_packets_since_last_loss_update = 0;
    expected_packets_since_last_loss_update = 0;
    feedback_max_rtts = [];
    last_loss_based_target_rate = rate;
    last_pushback_target_rate = rate;
    last_stable_target_rate = rate;
    last_estimated_fraction_loss = some 0;
    last_estimated_round_trip_time = plus_infinity;
    last_packet_received_time = minus_infinity;
    estimate = none;
    pacing_factor = value_or config.pacing_factor (fl.decimal (pos 25) 1);
    min_total_allocated_bitrate = value_or config.min_total_allocated_bitrate (pos 0);
    max_padding_rate = value_or config.max_padding_rate (pos 0);
  }

  -- The constructor; `none` is the use of a starting rate that is not given.
  unfoldable pub new_controller : Config F → Bool → Bool → Option (Controller F)
  unfolding started
  new_controller config has_predictor in_alr = elim config.constraints.starting_rate [
    | none ↦ none
    | some rate ↦ some (started config rate has_predictor in_alr)
  ]

  unfoldable pub on_remote_bitrate_report : Controller F → Timestamp → DataRate → Controller F
  on_remote_bitrate_report s receive_time bandwidth =
      if s.packet_feedback_only then s else record s {
        bandwidth_estimation =
            update_receiver_estimate s.bandwidth_estimation receive_time bandwidth;
      }

  unfoldable pub on_round_trip_time_update :
      Controller F → Timestamp → TimeDelta → Bool → Controller F
  on_round_trip_time_update s receive_time round_trip_time smoothed =
      if s.packet_feedback_only then s else if smoothed then s else record s {
        delay_based_bwe = Delay.on_rtt_update s.delay_based_bwe round_trip_time;
        bandwidth_estimation = update_rtt s.bandwidth_estimation round_trip_time receive_time;
      }

  unfoldable pub on_sent_packet : Controller F → SentPacket → Controller F
  on_sent_packet s packet = if s.first_packet_sent then s else record s { first_packet_sent = true }

  unfoldable pub on_received_packet : Controller F → Timestamp → Controller F
  on_received_packet s receive_time = record s { last_packet_received_time = receive_time }

  unfoldable pub on_network_state_estimate : Controller F → NetworkStateEstimate F → Controller F
  on_network_state_estimate s msg = record s { estimate = some msg }

  unfoldable pub on_transport_loss_report : Controller F → TransportLossReport → Controller F
  on_transport_loss_report s msg = if s.packet_feedback_only then s else record s {
    bandwidth_estimation =
        update_packets_lost s.bandwidth_estimation msg.packets_lost_delta
          ((msg.packets_received_delta + msg.packets_lost_delta) % 2 ^ 64) msg.receive_time;
  }

  unfoldable pub clamp_constraints : Controller F → Controller F
  clamp_constraints s =
      let least = max_ℤ s.min_target_rate min_bitrate in
      record s {
        min_data_rate = least;
        max_data_rate = if ltb_ℤ s.max_data_rate least then least else s.max_data_rate;
        starting_rate = elim s.starting_rate [
          | none ↦ none
          | some rate ↦ some (if ltb_ℤ rate least then least else rate)
        ];
      }

  -- `ResetConstraints` up to `ClampConstraints`.
  unfoldable pub take_constraints : Controller F → TargetRateConstraints → Controller F
  unfolding clamp_constraints
  take_constraints s new = clamp_constraints (record s {
    min_target_rate = value_or new.min_data_rate (pos 0);
    max_data_rate = value_or new.max_data_rate plus_infinity;
    starting_rate = new.starting_rate;
  })

  abbrev pub start_delay : DelayBasedBwe F → Option DataRate → DelayBasedBwe F
  start_delay d none = d
  start_delay d (some rate) = Delay.set_start_bitrate d rate

  unfoldable pub reset_constraints : Controller F → TargetRateConstraints → Controller F
  unfolding take_constraints
  reset_constraints s new =
      let t = take_constraints s new in
      record t {
        bandwidth_estimation =
            set_bitrates t.bandwidth_estimation t.starting_rate t.min_data_rate t.max_data_rate
              new.at_time;
        delay_based_bwe =
            Delay.set_min_bitrate (start_delay t.delay_based_bwe t.starting_rate) t.min_data_rate;
      }

  unfoldable pub get_sender_side_data_rate : Controller F → DataRate
  get_sender_side_data_rate s = target_rate s.bandwidth_estimation

  unfoldable pub get_receiver_limit : Controller F → DataRate
  get_receiver_limit s = s.bandwidth_estimation.receiver_limit
