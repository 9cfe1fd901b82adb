-- ===== src/DelayBased/Update.antt =====
-- The estimate of delay_based_bwe.cc: `MaybeUpdateEstimate`, and the calls of the rate control.
use gcc_chrome.Common.{
  Bool, true, false, Option, none, some, List, [], ◌∷◌, not, ◌&&◌, ◌||◌, if◌then◌else◌,
}
use gcc_chrome.Common.Double.{Double}
use gcc_chrome.Common.Int.{eqb_ℤ}
use gcc_chrome.Unit.{Timestamp, TimeDelta, DataRate, divide}
use gcc_chrome.NetworkTypes.{
  NetworkStateEstimate, PacketResult, TransportPacketsFeedback, sorted_by_receive_time,
}
use gcc_chrome.Aimd
use gcc_chrome.Aimd.{BandwidthUsage, normal, underusing, overusing, last, Aimd, is_overusing}
use gcc_chrome.DelayBased.{DelayBasedBwe, Result, no_result, active_state, packets_loop}

abbrev pub same_usage : BandwidthUsage → BandwidthUsage → Bool
same_usage normal normal = true
same_usage underusing underusing = true
same_usage overusing overusing = true
same_usage last last = true
same_usage _ _ = false

module _ {ℓ} {F : Type ℓ} ⦃fl : Double F⦄ where
  abbrev pub set_rate_control : DelayBasedBwe F → Aimd F → DelayBasedBwe F
  set_rate_control s r = record s { rate_control = r }

  -- `UpdateEstimate`, with the result whose target it writes. A rate is valid once it is initialized.
  unfoldable pub update_estimate :
      DelayBasedBwe F → Timestamp → Option DataRate → Result → Option (DelayBasedBwe F × Result)
  update_estimate s at_time acked_bitrate result =
      elim (Aimd.update F s.rate_control
        (record { bw_state = active_state s; estimated_throughput = acked_bitrate }) at_time) [
          | none ↦ none
          | some r ↦ some (
            set_rate_control s r,
            record result {
              target_bitrate = r.current_bitrate;
              updated = r.bitrate_is_initialized;
            },
          )
        ]

  -- Overuse before there is a measured rate.
  unfoldable pub halve : DelayBasedBwe F → Timestamp → DelayBasedBwe F × Result
  halve s at_time =
      let halved =
        Aimd.set_estimate s.rate_control (divide F s.rate_control.current_bitrate 2) at_time in
      (
        set_rate_control s halved,
        record no_result { updated = true; target_bitrate = halved.current_bitrate },
      )

  -- The branches on overuse.
  unfoldable pub on_overuse :
      DelayBasedBwe F → Option DataRate → Bool → Timestamp → Option (DelayBasedBwe F × Result)
  on_overuse s acked_bitrate in_alr at_time =
      if s.has_once_detected_overuse && in_alr
      then (if Aimd.time_to_reduce_further F s.rate_control at_time s.prev_bitrate
          then update_estimate s at_time (some s.prev_bitrate)
              (record no_result { backoff_in_alr = true })
          else some (s, no_result))
      else elim acked_bitrate [
        | some rate ↦
            if Aimd.time_to_reduce_further F s.rate_control at_time rate
            then update_estimate s at_time (some rate) no_result
            else some (s, no_result)
        | none ↦
            if s.rate_control.bitrate_is_initialized
              && Aimd.initial_time_to_reduce_further s.rate_control
            then some (halve s at_time)
            else some (s, no_result)
      ]

  -- The end of `MaybeUpdateEstimate`.
  unfoldable pub remember : DelayBasedBwe F → Result → DelayBasedBwe F
  remember s result =
      if result.updated && not (eqb_ℤ s.prev_bitrate result.target_bitrate)
        || not (same_usage (active_state s) s.prev_state)
      then record s {
        prev_bitrate = if result.updated then result.target_bitrate else s.prev_bitrate;
        prev_state = active_state s;
      }
      else s

  unfoldable pub maybe_update_estimate :
      DelayBasedBwe F
      → Option DataRate
      → Bool
      → Bool
      → Timestamp
      → Option (DelayBasedBwe F × Result)
  maybe_update_estimate s acked_bitrate recovered_from_overuse in_alr at_time =
      if is_overusing (active_state s)
      then elim (on_overuse s acked_bitrate in_alr at_time) [
        | none ↦ none
        | some (r, result) ↦
            let seen = record r { has_once_detected_overuse = true } in
            some (remember seen result, result)
      ]
      else elim (update_estimate s at_time acked_bitrate no_result) [
        | none ↦ none
        | some (r, result) ↦
            let told = record result { recovered_from_overuse = recovered_from_overuse } in
            some (remember r told, told)
      ]

  -- `IncomingPacketFeedbackVector` once the packets are sorted.
  unfoldable pub incoming_sorted :
      DelayBasedBwe F
      → List PacketResult
      → Option DataRate
      → Option (NetworkStateEstimate F)
      → Bool
      → Timestamp
      → Option (DelayBasedBwe F × Result)
  incoming_sorted s [] acked_bitrate estimate in_alr feedback_time = some (s, no_result)
  incoming_sorted s (p ∷ ps) acked_bitrate estimate in_alr feedback_time =
      elim (packets_loop s (p ∷ ps) feedback_time false) [
        | none ↦ none
        | some (r, recovered) ↦
            maybe_update_estimate
              (set_rate_control r (
                Aimd.set_network_state_estimate
                  (Aimd.set_in_application_limited_region r.rate_control in_alr) estimate))
              acked_bitrate recovered in_alr feedback_time
      ]

  unfoldable pub incoming_packet_feedback_vector :
      DelayBasedBwe F
      → TransportPacketsFeedback
      → Option DataRate
      → Option (NetworkStateEstimate F)
      → Bool
      → Option (DelayBasedBwe F × Result)
  incoming_packet_feedback_vector s msg acked_bitrate estimate in_alr =
      incoming_sorted s (sorted_by_receive_time msg) acked_bitrate estimate in_alr msg.feedback_time

  -- The new object, and the rate that is returned.
  unfoldable pub trigger_overuse :
      DelayBasedBwe F → Timestamp → Option DataRate → Option (DelayBasedBwe F × DataRate)
  trigger_overuse s at_time link_capacity =
      elim (Aimd.update F s.rate_control
        (record { bw_state = overusing; estimated_throughput = link_capacity }) at_time) [
          | none ↦ none
          | some r ↦ some (set_rate_control s r, r.current_bitrate)
        ]

  unfoldable pub on_rtt_update : DelayBasedBwe F → TimeDelta → DelayBasedBwe F
  on_rtt_update s avg_rtt = set_rate_control s (Aimd.set_rtt s.rate_control avg_rtt)

  -- The stream is `kFixedSsrc` always; `none` is a returned `false`.
  unfoldable pub latest_estimate : DelayBasedBwe F → Option DataRate
  latest_estimate s =
      if s.rate_control.bitrate_is_initialized then some s.rate_control.current_bitrate else none

  unfoldable pub set_start_bitrate : DelayBasedBwe F → DataRate → DelayBasedBwe F
  set_start_bitrate s rate = set_rate_control s (Aimd.set_start_bitrate s.rate_control rate)

  unfoldable pub set_min_bitrate : DelayBasedBwe F → DataRate → DelayBasedBwe F
  set_min_bitrate s rate = set_rate_control s (Aimd.set_min_bitrate s.rate_control rate)

  unfoldable pub get_expected_bwe_period : DelayBasedBwe F → Option TimeDelta
  get_expected_bwe_period s = Aimd.get_expected_bandwidth_period F s.rate_control
