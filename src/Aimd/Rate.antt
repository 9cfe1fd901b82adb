-- ===== src/Aimd/Rate.antt =====
-- What the delay-based rate does on each signal of the network.
use gcc_chrome.Common.{
  ℕ, ◌+◌, ◌^◌, ◌<◌, Bool, if◌then◌else◌, ◌≡◌, ◌≢◌, refl, ap, ◌∙◌, sym, true, false, Option, some,
  arith,
}
use gcc_chrome.Common.Double.{Double}
use gcc_chrome.Common.Int.{ℤ, pos, ◌+ℤ◌, ◌≤ℤ◌, ◌<ℤ◌, max_ℤ, min_ℤ}
use gcc_chrome.Unit.{Timestamp, DataRate, add}
use gcc_chrome.Aimd.{
  increase_of, may_increase, BandwidthUsage, normal, underusing, overusing, hold, increase,
  decrease, Aimd, change_state, leave_hold, initialize, apply_state, change_bitrate, update,
  throughput_based_limit, value_or,
}
use gcc_chrome.Aimd.Apply.{raised_by, apply_increase, apply_decrease, apply_hold, initialize-keeps}

module _ {ℓ} (F : Type ℓ) ⦃fl : Double F⦄ where
  same_floor :
      (m m' rate bound : ℤ)
      → m ≡ m'
      → m ≤ℤ rate
      → rate ≤ℤ max_ℤ bound m
      → (m' ≤ℤ rate) × (rate ≤ℤ max_ℤ bound m')
  same_floor m m' rate bound e lo hi = ground arith

  unfoldable pub known : Aimd F → Option DataRate → Aimd F
  known s throughput = record s {
    latest_estimated_throughput = value_or throughput s.latest_estimated_throughput;
  }

  change-overusing :
      (s : Aimd F) (throughput : Option DataRate) (at_time : Timestamp)
      → change_bitrate F s
          (record { bw_state = overusing; estimated_throughput = throughput })
          at_time
        ≡ apply_state F
            (record (known s throughput) { rate_control_state = decrease })
            (value_or throughput s.latest_estimated_throughput)
            at_time
  unfolding change_bitrate change_state known
  change-overusing s throughput at_time = ground arith

  -- When the network is overused the object is updated without fault, whether it had a first rate or
  -- not: the rate, after `initialize` took over a first throughput if it was time, is not raised,
  -- except to the configured minimum, which it is at least; the object then holds the rate,
  -- and counts as having one.
  pub update-overusing :
      (s : Aimd F) (throughput : Option DataRate) (at_time : Timestamp)
      → (r : Aimd F) × (update F s
            (record { bw_state = overusing; estimated_throughput = throughput })
            at_time
          ≡ some r)
        × (s.min_configured_bitrate ≤ℤ r.current_bitrate)
        × (r.current_bitrate
            ≤ℤ max_ℤ (initialize s throughput at_time).current_bitrate s.min_configured_bitrate)
        × (r.rate_control_state ≡ hold)
        × (r.bitrate_is_initialized ≡ true)
  unfolding update known
  update-overusing s throughput at_time =
      let before = initialize s throughput at_time in
      let t = value_or throughput before.latest_estimated_throughput in
      let changed = record (known before throughput) { rate_control_state = decrease } in
      let (r, e, (_, lo, hi), state, ready) = apply_decrease F changed t at_time refl in
      let (floor, _, _) = initialize-keeps F s throughput at_time in
      let (lo', hi') =
        same_floor before.min_configured_bitrate s.min_configured_bitrate r.current_bitrate
          before.current_bitrate floor lo hi in
      (r, change-overusing before throughput at_time ∙ e, lo', hi', state, ready)

  change-underusing :
      (s : Aimd F) (throughput : Option DataRate) (at_time : Timestamp)
      → s.bitrate_is_initialized ≡ true
      → change_bitrate F s
          (record { bw_state = underusing; estimated_throughput = throughput })
          at_time
        ≡ apply_state F
            (record (known s throughput) { rate_control_state = hold })
            (value_or throughput s.latest_estimated_throughput)
            at_time
  unfolding change_bitrate change_state known
  change-underusing s throughput at_time ready = ground arith

  -- When the network is underused, an object that has a rate once `initialize` has run is updated
  -- without fault and holds that rate, or the configured minimum if that is larger,
  -- so that the queues can drain.
  pub update-underusing :
      (s : Aimd F) (throughput : Option DataRate) (at_time : Timestamp)
      → (initialize s throughput at_time).bitrate_is_initialized ≡ true
      → (r : Aimd F) × (update F s
            (record { bw_state = underusing; estimated_throughput = throughput })
            at_time
          ≡ some r)
        × (r.current_bitrate
            ≡ max_ℤ (initialize s throughput at_time).current_bitrate s.min_configured_bitrate)
        × (r.rate_control_state ≡ hold)
        × (r.bitrate_is_initialized ≡ true)
  unfolding update known
  update-underusing s throughput at_time ready =
      let before = initialize s throughput at_time in
      let t = value_or throughput before.latest_estimated_throughput in
      let changed = record (known before throughput) { rate_control_state = hold } in
      let e = apply_hold F changed t at_time refl in
      let (floor, _, _) = initialize-keeps F s throughput at_time in
      (
        record changed {
          current_bitrate = max_ℤ changed.current_bitrate changed.min_configured_bitrate;
        },
        change-underusing before throughput at_time ready ∙ e,
        ap (λ m. max_ℤ before.current_bitrate m) floor,
        refl,
        ready,
      )

  change-normal :
      (s : Aimd F) (throughput : Option DataRate) (at_time : Timestamp)
      → s.bitrate_is_initialized ≡ true
      → change_bitrate F s (record { bw_state = normal; estimated_throughput = throughput }) at_time
        ≡ apply_state F
            (leave_hold (known s throughput) at_time)
            (value_or throughput s.latest_estimated_throughput)
            at_time
  unfolding change_bitrate change_state known
  change-normal s throughput at_time ready = ground arith

  leave_hold-keeps :
      (s : Aimd F) (at_time : Timestamp)
      → s.rate_control_state ≢ decrease
      → let c = leave_hold s at_time in
        (c.rate_control_state ≡ increase)
        × (c.current_bitrate ≡ s.current_bitrate)
        × (c.min_configured_bitrate ≡ s.min_configured_bitrate)
        × (c.bitrate_is_initialized ≡ s.bitrate_is_initialized)
  unfolding leave_hold
  leave_hold-keeps s at_time settled = ground arith

  -- The object when the increase is computed: what is known is stored, and a hold is left.
  abbrev pub before_increase : Aimd F → Option DataRate → Timestamp → Aimd F
  before_increase s throughput at_time =
      leave_hold (known (initialize s throughput at_time) throughput) at_time

  -- The throughput that an update uses.
  abbrev pub throughput_of : Aimd F → Option DataRate → Timestamp → DataRate
  throughput_of s throughput at_time =
      value_or throughput (initialize s throughput at_time).latest_estimated_throughput

  before_increase-keeps :
      (s : Aimd F) (throughput : Option DataRate) (at_time : Timestamp)
      → s.rate_control_state ≢ decrease
      → let b = before_increase s throughput at_time in
        (b.rate_control_state ≡ increase)
        × (b.current_bitrate ≡ (initialize s throughput at_time).current_bitrate)
        × (b.min_configured_bitrate ≡ s.min_configured_bitrate)
        × (b.bitrate_is_initialized ≡ (initialize s throughput at_time).bitrate_is_initialized)
  unfolding known
  before_increase-keeps s throughput at_time settled =
      let before = initialize s throughput at_time in
      let (floor, same, _) = initialize-keeps F s throughput at_time in
      let (state, cur, m, init) =
        leave_hold-keeps (known before throughput) at_time (λ e. settled (sym same ∙ e)) in
      (state, cur, m ∙ floor, init)

  -- On a normal network an object that has a rate is updated to the increased rate.
  pub update-increases :
      (s : Aimd F) (throughput : Option DataRate) (at_time : Timestamp) (raise : DataRate)
      → (initialize s throughput at_time).bitrate_is_initialized ≡ true
      → s.rate_control_state ≢ decrease
      → let b = before_increase s throughput at_time in
        increase_of F b (throughput_of s throughput at_time) at_time ≡ some raise
        → (r : Aimd F) × (update F s
              (record { bw_state = normal; estimated_throughput = throughput })
              at_time
            ≡ some r)
          × (r.current_bitrate
              ≡ max_ℤ
                  (raised_by F b (throughput_of s throughput at_time) raise)
                  s.min_configured_bitrate)
          × (r.rate_control_state ≡ increase)
          × (r.bitrate_is_initialized ≡ true)
  unfolding update known
  update-increases s throughput at_time raise ready settled h =
      let b = before_increase s throughput at_time in
      let (state, _, floor, init) = before_increase-keeps s throughput at_time settled in
      let (r, e, rate, state', ready') =
        apply_increase F b (throughput_of s throughput at_time) raise at_time state h in
      (
        r,
        change-normal (initialize s throughput at_time) throughput at_time ready ∙ e,
        rate ∙ ap (λ m. max_ℤ (raised_by F b (throughput_of s throughput at_time) raise) m) floor,
        state',
        ready' ∙ init ∙ ready,
      )

  raises :
      (c c' m limit : ℤ) (rate raise : ℕ) (allowed : Bool)
      → c ≡ c'
      → c' ≡ pos rate
      → rate + raise < 2 ^ 62
      → (allowed ≡ true → c <ℤ limit)
      → let after = max_ℤ (if allowed then min_ℤ (add c (pos raise)) limit else c) m in
        (after ≡ max_ℤ (if allowed then min_ℤ (pos (rate + raise)) limit else pos rate) m)
        × (pos rate ≤ℤ after)
  unfolding add ◌+ℤ◌ gcc_chrome.Unit.is_plus_infinity gcc_chrome.Unit.is_minus_infinity
  raises c c' m limit rate raise allowed e e' small below = ground arith

  below_limit :
      (s : Aimd F) (throughput : DataRate)
      → may_increase F s throughput ≡ true
      → s.current_bitrate <ℤ throughput_based_limit F throughput
  unfolding may_increase
  below_limit s throughput h = ground arith

  pub update-normal :
      (s : Aimd F) (throughput : Option DataRate) (at_time : Timestamp) (rate raise : ℕ)
      → (initialize s throughput at_time).bitrate_is_initialized ≡ true
      → s.rate_control_state ≢ decrease
      → (initialize s throughput at_time).current_bitrate ≡ pos rate
      → let b = before_increase s throughput at_time in
        let t = throughput_of s throughput at_time in
        increase_of F b t at_time ≡ some (pos raise)
        → rate + raise < 2 ^ 62
        → (r : Aimd F) × (update F s
              (record { bw_state = normal; estimated_throughput = throughput })
              at_time
            ≡ some r)
          × (r.current_bitrate
              ≡ max_ℤ
                  (if may_increase F b t
                    then min_ℤ (pos (rate + raise)) (throughput_based_limit F t)
                    else pos rate)
                  s.min_configured_bitrate)
          × (pos rate ≤ℤ r.current_bitrate)
          × (r.rate_control_state ≡ increase)
          × (r.bitrate_is_initialized ≡ true)
  update-normal s throughput at_time rate raise ready settled cur inc small =
      let b = before_increase s throughput at_time in
      let t = throughput_of s throughput at_time in
      let (_, same, _, _) = before_increase-keeps s throughput at_time settled in
      let (r, e, rated, state, begun) =
        update-increases s throughput at_time (pos raise) ready settled inc in
      let (exact, lower) =
        raises b.current_bitrate _ s.min_configured_bitrate (throughput_based_limit F t) rate raise
          (may_increase F b t) same cur small (below_limit b t) in
      (r, e, rated ∙ exact, rw rated lower, state, begun)

  initialize-waiting :
      (s : Aimd F) (throughput : Option DataRate) (at_time : Timestamp)
      → (initialize s throughput at_time).bitrate_is_initialized ≡ false
      → let r = initialize s throughput at_time in
        (r.current_bitrate ≡ s.current_bitrate)
        × (r.rate_control_state ≡ s.rate_control_state)
        × (r.time_last_bitrate_change ≡ s.time_last_bitrate_change)
        × (r.time_last_bitrate_decrease ≡ s.time_last_bitrate_decrease)
  unfolding initialize
  initialize-waiting s throughput at_time waiting = ground arith

  pub change-waiting :
      (s : Aimd F) (usage : BandwidthUsage) (throughput : Option DataRate) (at_time : Timestamp)
      → s.bitrate_is_initialized ≡ false
      → usage ≢ overusing
      → change_bitrate F s (record { bw_state = usage; estimated_throughput = throughput }) at_time
        ≡ some (known s throughput)
  unfolding change_bitrate known
  change-waiting s usage throughput at_time waiting other = ground arith

  -- An object that has no rate once `initialize` has run, on a network that is not overused, waits: the rate
  -- stays what it was, and so do the state and the times of its changes.
  pub update-waiting :
      (s : Aimd F) (usage : BandwidthUsage) (throughput : Option DataRate) (at_time : Timestamp)
      → (initialize s throughput at_time).bitrate_is_initialized ≡ false
      → usage ≢ overusing
      → (r : Aimd F) × (update F s
            (record { bw_state = usage; estimated_throughput = throughput })
            at_time
          ≡ some r)
        × (r.current_bitrate ≡ s.current_bitrate)
        × (r.rate_control_state ≡ s.rate_control_state)
        × (r.time_last_bitrate_change ≡ s.time_last_bitrate_change)
        × (r.time_last_bitrate_decrease ≡ s.time_last_bitrate_decrease)
  unfolding update known
  update-waiting s usage throughput at_time waiting other = (
    known (initialize s throughput at_time) throughput,
    change-waiting (initialize s throughput at_time) usage throughput at_time waiting other,
    (initialize-waiting s throughput at_time waiting).0,
    (initialize-waiting s throughput at_time waiting).1,
    (initialize-waiting s throughput at_time waiting).2,
    (initialize-waiting s throughput at_time waiting).3,
  )
