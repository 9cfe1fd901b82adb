-- ===== src/SendSide/Estimate.antt =====
-- The history of the target rate, and the estimate that a report of losses changes.
use gcc_chrome.Common.{
  ℕ, ◌+◌, ◌-◌, ◌*◌, ◌^◌, Bool, true, false, List, [], ◌∷◌, ◌++◌, ltb, leb, ◌==◌, not, ◌&&◌, ◌||◌,
  if◌then◌else◌,
}
use gcc_chrome.Common.Double.{Double}
use gcc_chrome.Common.Int.{
  ℤ, pos, ◌+ℤ◌, quot, int64, int32, to_u8, ltb_ℤ, leb_ℤ, eqb_ℤ, max_ℤ, min_ℤ,
}
use gcc_chrome.Unit.{
  Timestamp, DataRate, is_infinite, is_finite, add, sub, scale, from_double, from_fraction, millis,
  kbps,
}
use gcc_chrome.SendSide.{SendSide, UmaState, first_done, done}
use gcc_chrome.SendSide.Target.{
  update_target_bitrate, apply_target_limits, is_in_start_phase, is_no_update,
}

abbrev pub Entry : Type 0
Entry = Timestamp × DataRate

-- Whether an entry of the history is older than kBweIncreaseInterval, with the millisecond that the
-- source adds.
unfoldable pub is_old : Timestamp → Timestamp → Bool
is_old at_time entry_time = ltb_ℤ (millis 1000) (add (sub at_time entry_time) (millis 1))

-- The loop that pops old entries from the front; the head of the list is the front of the deque.
unfoldable pub pop_old : Timestamp → List Entry → List Entry
pop_old at_time [] = []
pop_old at_time ((time, rate) ∷ es) =
    if is_old at_time time then pop_old at_time es else (time, rate) ∷ es

-- The loop that pops from the back the entries that are not below the current target. An entry is at
-- the back once all behind it are popped.
unfoldable pub pop_high : DataRate → List Entry → List Entry
pop_high current [] = []
pop_high current ((time, rate) ∷ es) = elim (pop_high current es) [
  | [] ↦ if leb_ℤ current rate then [] else (time, rate) ∷ []
  | e ∷ rest ↦ (time, rate) ∷ e ∷ rest
]

unfoldable pub update_min_history : List Entry → DataRate → Timestamp → List Entry
update_min_history history current at_time =
    pop_high current (pop_old at_time history) ++ (at_time, current) ∷ []

-- `front().second`; the caller has just pushed an entry, so the default is not used.
unfoldable pub front_rate : DataRate → List Entry → DataRate
front_rate default [] = default
front_rate default ((time, rate) ∷ es) = rate

-- The fraction of lost packets in 1/256, as it is stored in a uint8_t.
unfoldable pub fraction_of : ℕ → ℕ → ℕ
fraction_of lost expected =
    to_u8 (min_ℤ (int32 (quot (int64 (pos (lost * 2 ^ 8))) expected)) (pos 255))

-- The loss is `last_fraction_loss_ / 256.0f`, which is exact. No multiple of 1/256 lies between the
-- thresholds 0.02f and 0.1f of the source and the exact 2/100 and 10/100.
abbrev pub is_low_loss : ℕ → Bool
is_low_loss fraction = leb (fraction * 100) (2 * 256)

abbrev pub is_medium_loss : ℕ → Bool
is_medium_loss fraction = leb (fraction * 100) (10 * 256)

-- One test of the ramp-up loop, with the bound in kbps.
unfoldable pub mark_rampup : ℤ → List Bool → List ℕ → List Bool
mark_rampup rate_kbps (updated ∷ us) (bound ∷ bs) =
    (updated || leb_ℤ (pos bound) rate_kbps) ∷ mark_rampup rate_kbps us bs
mark_rampup rate_kbps us _ = us

abbrev is_first_done : UmaState → Bool
is_first_done first_done = true
is_first_done _ = false

module _ {ℓ} {F : Type ℓ} where
  unfoldable pub update_uma_stats_packets_lost : SendSide F → Timestamp → ℕ → SendSide F
  update_uma_stats_packets_lost s at_time packets_lost =
      let bitrate_kbps = from_fraction 1000 (quot (int64 (s.current_target +ℤ pos 500)) 1000) in
      let ramped = record s {
        rampup_uma_stats_updated =
            mark_rampup (kbps bitrate_kbps) s.rampup_uma_stats_updated (500 ∷ 1000 ∷ 2000 ∷ []);
      } in
      if is_in_start_phase s at_time
      then record ramped { initially_lost_packets = s.initially_lost_packets + packets_lost }
      else if is_no_update s.uma_update_state
      then record ramped { uma_update_state = first_done; bitrate_at_2_seconds = bitrate_kbps }
      else if is_first_done s.uma_update_state
          && leb_ℤ (millis 20_000) (sub at_time s.first_report_time)
      then record ramped { uma_update_state = done }
      else ramped

module _ {ℓ} (F : Type ℓ) ⦃fl : Double F⦄ where
  -- `rate * 1.08 + 0.5`, and 1 kbps extra.
  unfoldable pub increased : DataRate → DataRate
  increased rate =
      add
        (from_double
          (fl.add (fl.mul (fl.of_int rate) (fl.decimal (pos 108) 2)) (fl.decimal (pos 5) 1)))
        (pos 1000)

  -- `rate * (512 - fraction) / 512.0`
  unfoldable pub decreased : DataRate → ℕ → DataRate
  decreased rate fraction =
      from_double
        (fl.div (fl.mul (fl.of_int rate) (fl.of_int (pos (512 - fraction)))) (fl.of_int (pos 512)))

module _ {ℓ} {F : Type ℓ} ⦃fl : Double F⦄ where
  -- The bitrate that the first two seconds trust.
  unfoldable pub trusted_bitrate : SendSide F → DataRate
  trusted_bitrate s =
      let by_receiver =
        if is_finite s.receiver_limit
        then max_ℤ s.receiver_limit s.current_target
        else s.current_target in
      if is_finite s.delay_based_limit then max_ℤ s.delay_based_limit by_receiver else by_receiver

  -- What follows `UpdateMinHistory`. The threshold on the bitrate is zero.
  unfoldable pub update_by_loss : SendSide F → Timestamp → SendSide F
  update_by_loss s at_time =
      if is_infinite s.last_loss_packet_report
      then apply_target_limits s at_time
      else if ltb_ℤ (sub at_time s.last_loss_packet_report)
          (scale (millis 5000) (fl.decimal (pos 12) 1))
      then (if ltb_ℤ s.current_target (pos 0) || is_low_loss s.last_fraction_loss
          then update_target_bitrate s
              (increased F (front_rate s.current_target s.min_bitrate_history)) at_time
          else if ltb_ℤ (pos 0) s.current_target
              && not (is_medium_loss s.last_fraction_loss)
              && not s.has_decreased_since_last_fraction_loss
              && leb_ℤ (add (millis 300) s.last_round_trip_time) (sub at_time s.time_last_decrease)
          then update_target_bitrate
              (record s {
                time_last_decrease = at_time;
                has_decreased_since_last_fraction_loss = true;
              })
              (decreased F s.current_target s.last_fraction_loss) at_time
          else apply_target_limits s at_time)
      else apply_target_limits s at_time

  unfoldable pub update_estimate : SendSide F → Timestamp → SendSide F
  update_estimate s at_time =
      if s.last_fraction_loss == 0
        && is_in_start_phase s at_time
        && not (eqb_ℤ (trusted_bitrate s) s.current_target)
      then update_target_bitrate
          (record s { min_bitrate_history = (at_time, s.current_target) ∷ [] }) (trusted_bitrate s)
          at_time
      else update_by_loss
          (record s {
            min_bitrate_history = update_min_history s.min_bitrate_history s.current_target at_time;
          })
          at_time

  -- The report is counted, and used once it covers 20 packets (kLimitNumPackets). The
  -- source counts in int64_t; totals of 2^63 and more are not modelled.
  unfoldable pub update_packets_lost : SendSide F → ℕ → ℕ → Timestamp → SendSide F
  update_packets_lost s packets_lost number_of_packets at_time =
      let heard = record s {
        last_loss_feedback = at_time;
        first_report_time =
            if is_infinite s.first_report_time then at_time else s.first_report_time;
      } in
      let expected = s.expected_packets_since_last_loss_update + number_of_packets in
      let lost = s.lost_packets_since_last_loss_update + packets_lost in
      if ltb 0 number_of_packets
      then (if ltb expected 20
          then record heard {
            expected_packets_since_last_loss_update = expected;
            lost_packets_since_last_loss_update = lost;
          }
          else update_uma_stats_packets_lost
              (update_estimate
                (record heard {
                  has_decreased_since_last_fraction_loss = false;
                  last_fraction_loss = fraction_of lost expected;
                  lost_packets_since_last_loss_update = 0;
                  expected_packets_since_last_loss_update = 0;
                  last_loss_packet_report = at_time;
                })
                at_time)
              at_time packets_lost)
      else update_uma_stats_packets_lost heard at_time packets_lost
