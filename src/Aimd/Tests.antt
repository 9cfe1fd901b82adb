-- ===== src/Aimd/Tests.antt =====
-- The delay-based rate on concrete signals.
use gcc_chrome.Common.{◌≡◌, ◌≢◌, refl, true, false, Option, none, some, List, [], ◌∷◌, arith}
use gcc_chrome.Common.Fixed.{Fixed, fixed}
use gcc_chrome.Common.Int.{pos, ◌≤ℤ◌, max_ℤ}
use gcc_chrome.Unit.{seconds, DataRate}
use gcc_chrome.Aimd.{
  normal, overusing, hold, increase, decrease, Aimd, new_aimd, set_estimate, initialize, update,
  throughput_based_limit, increase_of, may_increase, leave_hold, clamp_bitrate,
  multiplicative_rate_increase,
}
use gcc_chrome.LinkCapacity.{has_estimate, upper_bound, new_link_capacity_estimator}
use gcc_chrome.Common.Int.{quot, ◌*ℤ◌, ◌+ℤ◌, ◌-ℤ◌, min_ℤ}
use gcc_chrome.Common.{if◌then◌else◌}
use gcc_chrome.Unit.{
  sub, scale, from_double, to_double, to_seconds, is_finite, is_infinite, is_plus_infinity,
  is_minus_infinity,
}
use gcc_chrome.Aimd.Machine.{Phase, waiting, Signal, Passes, IsIn, updates, updates-refine}
use gcc_chrome.Aimd.Rate.{before_increase, known, update-overusing, update-normal}

-- An object that was given a rate of 1 Mbps, and the one at the start.
abbrev started : Aimd Fixed
started = set_estimate (new_aimd false) (pos 1_000_000) (seconds 1)

abbrev unstarted : Aimd Fixed
unstarted = new_aimd false

abbrev measured : Option DataRate
measured = some (pos 800_000)

started_ready : (initialize started measured (seconds 2)).bitrate_is_initialized ≡ true
unfolding initialize set_estimate
started_ready = refl

started_rate : (initialize started measured (seconds 2)).current_bitrate ≡ pos 1_000_000
unfolding initialize set_estimate clamp_bitrate new_aimd
started_rate = refl

started_settled : started.rate_control_state ≢ decrease
unfolding set_estimate new_aimd
started_settled = ground arith

unstarted_waits : (initialize unstarted measured (seconds 2)).bitrate_is_initialized ≡ false
unfolding initialize new_aimd gcc_chrome.Unit.is_infinite gcc_chrome.Unit.is_plus_infinity
    gcc_chrome.Unit.is_minus_infinity
unstarted_waits = refl

update-overusing_example :
    (r : Aimd Fixed) × (update Fixed started
        (record { bw_state = overusing; estimated_throughput = measured })
        (seconds 2)
      ≡ some r)
    × (started.min_configured_bitrate ≤ℤ r.current_bitrate)
    × (r.current_bitrate
        ≤ℤ max_ℤ
            (initialize started measured (seconds 2)).current_bitrate
            started.min_configured_bitrate)
    × (r.rate_control_state ≡ hold)
    × (r.bitrate_is_initialized ≡ true)
update-overusing_example = update-overusing Fixed started measured (seconds 2)

started_raise :
    increase_of Fixed (before_increase Fixed started measured (seconds 2)) (pos 800_000) (seconds 2)
    ≡ some (pos 1_000)
unfolding increase_of initialize leave_hold known set_estimate new_aimd has_estimate upper_bound
    multiplicative_rate_increase sub scale from_double to_double to_seconds is_finite is_infinite
    is_plus_infinity is_minus_infinity new_link_capacity_estimator fixed quot ◌*ℤ◌ ◌+ℤ◌ ◌-ℤ◌
    clamp_bitrate
started_raise = refl

update-normal_example :
    (r : Aimd Fixed) × (update Fixed started
        (record { bw_state = normal; estimated_throughput = measured })
        (seconds 2)
      ≡ some r)
    × (r.current_bitrate
        ≡ max_ℤ
            (if may_increase Fixed
                (before_increase Fixed started measured (seconds 2))
                (pos 800_000)
              then min_ℤ (pos 1_001_000) (throughput_based_limit Fixed (pos 800_000))
              else pos 1_000_000)
            started.min_configured_bitrate)
    × (pos 1_000_000 ≤ℤ r.current_bitrate)
    × (r.rate_control_state ≡ increase)
    × (r.bitrate_is_initialized ≡ true)
update-normal_example =
    update-normal Fixed started measured (seconds 2) 1_000_000 1_000 started_ready started_settled
      started_rate started_raise (omega arith)

-- Overuse before there is a rate, then a normal signal.
abbrev signals : List Signal
signals =
    (normal, none, seconds 1)
    ∷ (overusing, measured, seconds 2)
    ∷ (normal, measured, seconds 3)
    ∷ []

updates-refine_example :
    (r : Aimd Fixed) × (updates Fixed (new_aimd false) signals ≡ some r)
    × (q : Phase) × IsIn r q
    × Passes signals waiting q
updates-refine_example =
    updates-refine Fixed false signals (ground arith, (ground arith, (ground arith, tt)))
