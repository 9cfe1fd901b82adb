-- ===== src/DelayBased/Tests.antt =====
-- The delay-based estimator on concrete packets, sent 10 ms apart and received 14 ms apart.
use gcc_chrome.Common.{
  ℕ, zero, suc, ◌+◌, ◌*◌, ◌≡◌, refl, none, true, false, some, List, [], ◌∷◌, if◌then◌else◌, arith,
}
use gcc_chrome.Common.Fixed.{Fixed, fixed}
use gcc_chrome.Common.Int.{pos, ◌≤ℤ◌, ◌+ℤ◌, ◌*ℤ◌, quot}
use gcc_chrome.Unit.{divide, from_double, millis, seconds}
use gcc_chrome.NetworkTypes.{PacketResult, TransportPacketsFeedback}
use gcc_chrome.Aimd.{overusing, new_aimd, set_start_bitrate}
use gcc_chrome.Trendline.{new_trendline}
use gcc_chrome.Trendline.Update.{state}
use gcc_chrome.DelayBased.{DelayBasedBwe, Result, new_delay_based_bwe, active_state}
use gcc_chrome.DelayBased.Update.{incoming_packet_feedback_vector, maybe_update_estimate}
use gcc_chrome.DelayBased.Reach.{
  AreValid, Event, feedback, start_bitrate, run, calls_complete, feedback-last_estimate,
}
use gcc_chrome.DelayBased.Overuse.{IsNotRaised, maybe_update_estimate-overusing}

abbrev packet : ℕ → PacketResult
packet n = record {
  sent_packet = record {
    send_time = millis (1_000 + 10 * n);
    size = pos 1_200;
    prior_unacked_data = pos 0;
    audio = false;
    sequence_number = n;
  };
  receive_time = millis (1_050 + 14 * n);
}

abbrev message : ℕ → TransportPacketsFeedback
message n = record { feedback_time = millis (1_060 + 14 * n); packet_feedbacks = packet n ∷ [] }

unfoldable messages : ℕ → ℕ → List (Event Fixed)
messages zero first = []
messages (suc n) first =
    feedback (message first) (some (pos 400_000)) none false ∷ messages n (first + 1)

messages-AreValid : (n first : ℕ) → AreValid (messages n first)
unfolding messages
messages-AreValid zero first = tt
messages-AreValid (suc n) first = messages-AreValid n (first + 1)

calls_complete_example :
    (r : DelayBasedBwe Fixed) × (run
        (new_delay_based_bwe false)
        (start_bitrate (pos 1_000_000) ∷ messages 30 0)
      ≡ some r)
calls_complete_example =
    calls_complete Fixed false (start_bitrate (pos 1_000_000) ∷ messages 30 0)
      (messages-AreValid 30 0)

abbrev started : DelayBasedBwe Fixed
started = record (new_delay_based_bwe false) {
  rate_control = set_start_bitrate (new_aimd true) (pos 1_000_000);
}

feedback-last_estimate_example :
    (r : DelayBasedBwe Fixed) × (out : Result) × (incoming_packet_feedback_vector started
        (message 0)
        (some (pos 400_000))
        none
        false
      ≡ some (r, out))
    × (r.prev_bitrate ≡ (if out.updated then out.target_bitrate else started.prev_bitrate))
unfolding run gcc_chrome.DelayBased.Reach.step gcc_chrome.DelayBased.Update.set_start_bitrate
    new_delay_based_bwe
feedback-last_estimate_example =
    feedback-last_estimate Fixed false (start_bitrate (pos 1_000_000) ∷ []) started (message 0)
      (some (pos 400_000)) none false tt refl

-- The detector signals overuse.
abbrev overused : DelayBasedBwe Fixed
overused = record started {
  video_delay_detector = record (new_trendline false) { hypothesis = overusing };
}

halved : divide Fixed (pos 1_000_000) 2 ≡ pos 500_000
unfolding divide from_double fixed quot ◌*ℤ◌ ◌+ℤ◌
halved = refl

maybe_update_estimate-overusing_example :
    (q : DelayBasedBwe Fixed × Result) × (maybe_update_estimate overused
        (some (pos 300_000))
        false
        false
        (seconds 2)
      ≡ some q)
    × IsNotRaised overused.rate_control q
    × (q.0.has_once_detected_overuse ≡ true)
unfolding new_delay_based_bwe new_trendline state set_start_bitrate
maybe_update_estimate-overusing_example =
    maybe_update_estimate-overusing Fixed overused (some (pos 300_000)) false false (seconds 2) refl
      refl lowers
  where
    lowers : divide Fixed (pos 1_000_000) 2 ≤ℤ pos 1_000_000
    lowers = rw halved (omega arith)
