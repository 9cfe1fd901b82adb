-- ===== src/SendSide/Backoff.antt =====
-- chrome_gcc/src/google_cc/send_side_bandwidth_estimation.cc: the back-off on round-trip times, and
-- the estimator's getters.
use gcc_chrome.Common.{ℕ, ◌≤◌, ap, ◌+◌, ◌-◌, ◌^◌, ◌<◌, ◌≡◌, arith}
use gcc_chrome.Common.Double.{Double}
use gcc_chrome.Common.Int.{ℤ, pos, negsuc, pos_part, neg_part, int32, max_ℤ}
use gcc_chrome.Unit.{Timestamp, TimeDelta, DataRate, add, sub, to_double}
use gcc_chrome.Unit.Exact.{IsClock, sub-parts, add-eq}
use gcc_chrome.SendSide.{LinkCapacityTracker, SendSide, min_double, tracker_estimate}

module _ {ℓ} {F : Type ℓ} ⦃fl : Double F⦄ where
  unfoldable pub on_rtt_backoff :
      LinkCapacityTracker F → DataRate → Timestamp → LinkCapacityTracker F
  on_rtt_backoff l backoff_rate at_time = record l {
    capacity_estimate_bps = min_double l.capacity_estimate_bps (to_double backoff_rate);
    last_link_capacity_update = at_time;
  }

  unfoldable pub get_estimated_link_capacity : SendSide F → DataRate
  get_estimated_link_capacity s = tracker_estimate s.link_capacity

  -- `bps<int>` of the rate.
  unfoldable pub get_min_bitrate : SendSide F → ℤ
  get_min_bitrate s = int32 s.min_bitrate_configured

pub record RttBasedBackoff : Type 0 where
  pub rtt_limit : TimeDelta
  pub last_propagation_rtt_update : Timestamp
  pub last_propagation_rtt : TimeDelta
  pub last_packet_sent : Timestamp

unfoldable pub update_propagation_rtt : RttBasedBackoff → Timestamp → TimeDelta → RttBasedBackoff
update_propagation_rtt b at_time propagation_rtt = record b {
  last_propagation_rtt_update = at_time;
  last_propagation_rtt = propagation_rtt;
}

unfoldable pub corrected_rtt : RttBasedBackoff → Timestamp → TimeDelta
corrected_rtt b at_time =
    let time_since_rtt = sub at_time b.last_propagation_rtt_update in
    let time_since_packet_sent = sub at_time b.last_packet_sent in
    add (max_ℤ (sub time_since_rtt time_since_packet_sent) (pos 0)) b.last_propagation_rtt

-- A difference of times is within them.
sub-bounds :
    (d : ℤ) (m n : ℕ)
    → pos_part d + n ≡ neg_part d + m
    → (pos_part d ≤ m) × (neg_part d ≤ n) × (max_ℤ d (pos 0) ≡ pos (m - n))
sub-bounds (pos k) m n e = ground arith
sub-bounds (negsuc k) m n e = ground arith

-- Differences of times do not wrap.
sub-small :
    (a b : ℤ)
    → pos_part a < 2 ^ 61
    → neg_part a < 2 ^ 61
    → pos_part b < 2 ^ 61
    → neg_part b < 2 ^ 61
    → pos_part (sub a b) + neg_part a + pos_part b ≡ neg_part (sub a b) + pos_part a + neg_part b
unfolding sub
sub-small (pos a) (pos b) p n q m = ground arith
sub-small (pos a) (negsuc b) p n q m = ground arith
sub-small (negsuc a) (pos b) p n q m = ground arith
sub-small (negsuc a) (negsuc b) p n q m = ground arith

since_lem :
    (a b : ℤ)
    → IsClock a
    → IsClock b
    → (pos_part (sub a b) + pos_part b ≡ neg_part (sub a b) + pos_part a)
      × (pos_part (sub a b) ≤ pos_part a)
      × (neg_part (sub a b) ≤ pos_part b)
since_lem a b p q =
    let parts = sub-parts a b (omega arith, omega arith) (omega arith, omega arith) in
    let bounds = sub-bounds (sub a b) (pos_part a) (pos_part b) parts in (parts, bounds.0, bounds.1)

-- The round-trip time grows with the time between its measurement and the last packet sent, and not
-- with the time that has passed: the times are of a clock, and the measured one below 2^61
-- microseconds.
pub corrected_rtt-eq :
    (b : RttBasedBackoff) (at_time : Timestamp)
    → IsClock at_time
    → IsClock b.last_propagation_rtt_update
    → IsClock b.last_propagation_rtt
    → IsClock b.last_packet_sent
    → corrected_rtt b at_time
      ≡ pos (
          pos_part b.last_propagation_rtt
          + (pos_part b.last_packet_sent - pos_part b.last_propagation_rtt_update))
unfolding corrected_rtt
corrected_rtt-eq b at_time now update rtt sent =
    let since_rtt = sub at_time b.last_propagation_rtt_update in
    let since_sent = sub at_time b.last_packet_sent in
    let rtt_facts = since_lem at_time b.last_propagation_rtt_update now update in
    let sent_facts = since_lem at_time b.last_packet_sent now sent in
    let parts =
      sub-small since_rtt since_sent (omega arith) (omega arith) (omega arith) (omega arith) in
    let later = pos_part b.last_packet_sent - pos_part b.last_propagation_rtt_update in
    let excess =
      sub-bounds (sub since_rtt since_sent) (pos_part b.last_packet_sent)
        (pos_part b.last_propagation_rtt_update) (omega arith) in
    rw
      (
        excess.2,
        add-eq (pos later) b.last_propagation_rtt (omega arith, omega arith)
            (omega arith, omega arith),
      )
      (ap pos (omega arith))
