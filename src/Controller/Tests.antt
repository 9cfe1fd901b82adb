-- ===== src/Controller/Tests.antt =====
-- A controller that starts at 300 kbps, and its first calls.
use gcc_chrome.Common.{◌≤◌, ◌≡◌, refl, false, none, some, List, [], ◌∷◌, arith}
use gcc_chrome.Common.Fixed.{Fixed, fixed}
use gcc_chrome.Common.Int.{pos, ◌≤ℤ◌}
use gcc_chrome.Common.Lists.{length}
use gcc_chrome.Unit.{millis, seconds}
use gcc_chrome.NetworkTypes.{PacketResult}
use gcc_chrome.SendSide.{min_bitrate}
use gcc_chrome.Controller.{
  Config, Controller, TargetRateConstraints, started, new_controller, reset_constraints,
}
use gcc_chrome.Controller.Constraints.{reset_constraints-rates}
use gcc_chrome.Controller.Network.{NetworkControlUpdate, get_network_state}
use gcc_chrome.Controller.Reach.{
  Event, constraints, packets, round_trip_time, run, handlers_complete,
}

abbrev given : TargetRateConstraints
given = record {
  at_time = seconds 1;
  min_data_rate = some (pos 1_000);
  max_data_rate = some (pos 4_000);
  starting_rate = some (pos 300_000);
}

abbrev config : Config Fixed
config = record {
  constraints = given;
  pacing_factor = none;
  min_total_allocated_bitrate = none;
  max_padding_rate = none;
}

abbrev first : Controller Fixed
first = started config (pos 300_000) false false

-- Both limits are below 5 kbps, so both are raised to it.
raised : (reset_constraints first given).max_data_rate ≡ pos 5_000
unfolding reset_constraints started
raised = refl

reset_constraints-rates_example :
    let r = reset_constraints first given in
    (min_bitrate ≤ℤ r.min_data_rate)
    × (r.min_data_rate ≤ℤ r.max_data_rate)
    × (r.bandwidth_estimation.min_bitrate_configured ≡ r.min_data_rate)
    × (r.delay_based_bwe.rate_control.min_configured_bitrate ≡ r.min_data_rate)
    × (r.min_data_rate ≤ℤ r.delay_based_bwe.rate_control.current_bitrate)
reset_constraints-rates_example = reset_constraints-rates Fixed first given

abbrev packet : PacketResult
packet = record {
  sent_packet = record {
    send_time = millis 1_100;
    size = pos 1_200;
    prior_unacked_data = pos 0;
    audio = false;
    sequence_number = 1;
  };
  receive_time = millis 1_150;
}

abbrev calls : List (Event Fixed)
calls =
    constraints given
    ∷ packets (record { feedback_time = millis 1_160; packet_feedbacks = packet ∷ [] })
    ∷ round_trip_time (millis 1_200) (millis 60) false
    ∷ []

handlers_complete_example :
    (s : Controller Fixed) × (new_controller config false false ≡ some s)
    × (r : Controller Fixed) × (run s calls ≡ some r)
    × (length r.feedback_max_rtts ≤ 32)
    × (told : NetworkControlUpdate Fixed) × (get_network_state r (seconds 2) ≡ some told)
handlers_complete_example =
    handlers_complete Fixed config false false (pos 300_000) calls (seconds 2) refl (omega arith)
