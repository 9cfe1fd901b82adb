-- ===== src/DelayBased.antt =====
-- chrome_gcc/src/google_cc/delay_based_bwe.h and .cc: the rate from the delays of the packets, which
-- joins the inter-arrival deltas, the trendline estimators and the AIMD rate control. `none` is the
-- use of a pointer that is not set, an access out of bounds or a failed assertion. The objects that
-- are made anew get the same value of the pointer that their constructor leaves as it is. A counter
-- does not wrap. `network_estimate`, which nothing reads, is left out.
pub mod Update
pub mod Packets
pub mod Estimate
pub mod Reach
pub mod Overuse
mod Tests
use gcc_chrome.Common.{
  ℕ, ◌+◌, Bool, true, false, Option, none, some, List, [], ◌∷◌, ltb, not, ◌&&◌, ◌||◌, if◌then◌else◌,
}
use gcc_chrome.Common.Double.{Double}
use gcc_chrome.Common.Int.{ℤ, pos, pos_part, ltb_ℤ, eqb_ℤ, max_ℤ}
use gcc_chrome.Unit.{
  Timestamp, TimeDelta, DataRate, minus_infinity, is_infinite, sub, seconds, millis, time_delta_ms,
  timestamp_ms, divide,
}
use gcc_chrome.NetworkTypes.{PacketResult, TransportPacketsFeedback, sorted_by_receive_time}
use gcc_chrome.InterArrival.{
  InterArrivalDelta, Deltas, Outcome, new_inter_arrival_delta, compute_deltas,
}
use gcc_chrome.Aimd
use gcc_chrome.Aimd.{
  BandwidthUsage, normal, underusing, overusing, last, Aimd, new_aimd, is_overusing,
}
use gcc_chrome.Trendline.Update as Trend
use gcc_chrome.Trendline.{Trendline, Sample, new_trendline}
use gcc_chrome.Trendline.Update.{state}

pub record SeparateAudioSettings : Type 0 where
  pub enabled : Bool
  pub packet_threshold : ℕ
  pub time_threshold : TimeDelta

-- The detector that `active_delay_detector_` points to.
pub data Detector : Type 0 where
  video audio : Detector

pub record DelayBasedBwe {ℓ} (F : Type ℓ) : Type ℓ where
  pub separate_audio : SeparateAudioSettings
  pub audio_packets_since_last_video : ℕ
  pub last_video_packet_recv_time : Timestamp
  pub video_inter_arrival_delta : Option InterArrivalDelta
  pub audio_inter_arrival_delta : Option InterArrivalDelta
  pub video_delay_detector : Trendline F
  pub audio_delay_detector : Trendline F
  pub active_delay_detector : Detector
  pub last_seen_packet : Timestamp
  pub rate_control : Aimd F
  pub prev_bitrate : DataRate
  pub has_once_detected_overuse : Bool
  pub prev_state : BandwidthUsage
  pub has_predictor : Bool

-- `DelayBasedBwe::Result`
pub record Result : Type 0 where
  pub updated : Bool
  pub probe : Bool
  pub target_bitrate : DataRate
  pub recovered_from_overuse : Bool
  pub backoff_in_alr : Bool

abbrev pub no_result : Result
no_result = record {
  updated = false;
  probe = false;
  target_bitrate = pos 0;
  recovered_from_overuse = false;
  backoff_in_alr = false;
}

abbrev pub stream_time_out : TimeDelta
stream_time_out = seconds 2

abbrev pub send_time_group_length : TimeDelta
send_time_group_length = millis 5

abbrev pub default_separate_audio : SeparateAudioSettings
default_separate_audio = record {
  enabled = false;
  packet_threshold = 10;
  time_threshold = seconds 1;
}

abbrev no_deltas : Deltas
no_deltas = record {
  send_time_delta = pos 0;
  arrival_time_delta = pos 0;
  packet_size_delta = pos 0;
}

-- The sizes of packets are not negative.
unfoldable pub packet_outcome : InterArrivalDelta → PacketResult → Timestamp → Outcome
packet_outcome inter_arrival packet at_time =
    compute_deltas inter_arrival
      (record {
        sent = packet.sent_packet.send_time;
        arrival = packet.receive_time;
        system_time = at_time;
        packet_size = pos_part packet.sent_packet.size;
      })
      no_deltas

-- From underuse to a normal network.
abbrev pub recovers : BandwidthUsage → BandwidthUsage → Bool
recovers underusing normal = true
recovers _ _ = false

module _ {ℓ} {F : Type ℓ} ⦃fl : Double F⦄ where
  unfoldable pub new_delay_based_bwe : Bool → DelayBasedBwe F
  new_delay_based_bwe has_predictor = record {
    separate_audio = default_separate_audio;
    audio_packets_since_last_video = 0;
    last_video_packet_recv_time = minus_infinity;
    video_inter_arrival_delta = none;
    audio_inter_arrival_delta = none;
    video_delay_detector = new_trendline has_predictor;
    audio_delay_detector = new_trendline has_predictor;
    active_delay_detector = video;
    last_seen_packet = minus_infinity;
    rate_control = new_aimd true;
    prev_bitrate = pos 0;
    has_once_detected_overuse = false;
    prev_state = normal;
    has_predictor = has_predictor;
  }

  abbrev pub pick : Detector → Trendline F → Trendline F → Trendline F
  pick video v a = v
  pick audio v a = a

  abbrev pub detector : Detector → DelayBasedBwe F → Trendline F
  detector which s = pick which s.video_delay_detector s.audio_delay_detector

  -- `active_delay_detector_->State()`
  abbrev pub active_state : DelayBasedBwe F → BandwidthUsage
  active_state s = state (detector s.active_delay_detector s)

  abbrev set_detector : Detector → DelayBasedBwe F → Trendline F → DelayBasedBwe F
  set_detector video s t = record s { video_delay_detector = t }
  set_detector audio s t = record s { audio_delay_detector = t }

  -- The start of `IncomingPacketFeedback`: a stream that has timed out starts anew.
  unfoldable pub time_out : DelayBasedBwe F → Timestamp → DelayBasedBwe F
  time_out s at_time =
      let reset =
        if is_infinite s.last_seen_packet || ltb_ℤ stream_time_out (sub at_time s.last_seen_packet)
        then record s {
          video_inter_arrival_delta = some (new_inter_arrival_delta send_time_group_length);
          audio_inter_arrival_delta = some (new_inter_arrival_delta send_time_group_length);
          video_delay_detector = new_trendline s.has_predictor;
          audio_delay_detector = new_trendline s.has_predictor;
          active_delay_detector = video;
        }
        else s in
      record reset { last_seen_packet = at_time }

  -- With audio apart: the detector that is active from now on.
  unfoldable pub choose_active : DelayBasedBwe F → PacketResult → DelayBasedBwe F
  choose_active s packet =
      let count = s.audio_packets_since_last_video + 1 in
      if not s.separate_audio.enabled
      then s
      else if packet.sent_packet.audio
      then record s {
        audio_packets_since_last_video = count;
        active_delay_detector =
            if ltb s.separate_audio.packet_threshold count
              && ltb_ℤ s.separate_audio.time_threshold
                  (sub packet.receive_time s.last_video_packet_recv_time)
            then audio
            else s.active_delay_detector;
      }
      else record s {
        audio_packets_since_last_video = 0;
        last_video_packet_recv_time = max_ℤ s.last_video_packet_recv_time packet.receive_time;
        active_delay_detector = video;
      }

  -- `delay_detector_for_packet`
  abbrev pub detector_for : DelayBasedBwe F → PacketResult → Detector
  detector_for s packet =
      if s.separate_audio.enabled && packet.sent_packet.audio then audio else video

  -- `inter_arrival_for_packet`: a packet of the audio detector uses `video_inter_arrival_delta_`, and
  -- one of the video detector `audio_inter_arrival_delta_`.
  abbrev pub inter_arrival_for : Detector → DelayBasedBwe F → Option InterArrivalDelta
  inter_arrival_for audio s = s.video_inter_arrival_delta
  inter_arrival_for video s = s.audio_inter_arrival_delta

  abbrev set_inter_arrival : Detector → DelayBasedBwe F → InterArrivalDelta → DelayBasedBwe F
  set_inter_arrival audio s next = record s { video_inter_arrival_delta = some next }
  set_inter_arrival video s next = record s { audio_inter_arrival_delta = some next }

  abbrev pub sample_of : PacketResult → Outcome → Sample F
  sample_of packet out = record {
    recv_delta_ms = fl.of_int (time_delta_ms out.deltas.arrival_time_delta);
    send_delta_ms = fl.of_int (time_delta_ms out.deltas.send_time_delta);
    arrival_ms = timestamp_ms packet.receive_time;
  }

  -- The end of `IncomingPacketFeedback`: the deltas, and the detector that they are for.
  unfoldable pub feed :
      Detector
      → DelayBasedBwe F
      → Option InterArrivalDelta
      → PacketResult
      → Timestamp
      → Option (DelayBasedBwe F)
  feed which s none packet at_time = none
  feed which s (some inter_arrival) packet at_time =
      let out = packet_outcome inter_arrival packet at_time in
      let next = set_inter_arrival which s out.next in
      elim (Trend.update (detector which next) (sample_of packet out) out.computed) [
        | none ↦ none
        | some t ↦ some (set_detector which next t)
      ]

  unfoldable pub update_detector :
      DelayBasedBwe F → PacketResult → Timestamp → Option (DelayBasedBwe F)
  update_detector s packet at_time =
      let which = detector_for s packet in feed which s (inter_arrival_for which s) packet at_time

  unfoldable pub incoming_packet_feedback :
      DelayBasedBwe F → PacketResult → Timestamp → Option (DelayBasedBwe F)
  incoming_packet_feedback s packet at_time =
      update_detector (choose_active (time_out s at_time) packet) packet at_time

  -- The loop over the packets, with `recovered_from_overuse` and `prev_detector_state`.
  unfoldable pub packets_loop :
      DelayBasedBwe F → List PacketResult → Timestamp → Bool → Option (DelayBasedBwe F × Bool)
  packets_loop s [] at_time recovered = some (s, recovered)
  packets_loop s (p ∷ ps) at_time recovered = elim (incoming_packet_feedback s p at_time) [
    | none ↦ none
    | some r ↦ packets_loop r ps at_time (recovered || recovers (active_state s) (active_state r))
  ]
