-- ===== src/Aimd/Machine.antt =====
-- The states of chrome_gcc/src/google_cc/aimd_rate_control.cc as a machine of three phases: an object
-- that has no rate yet, one that holds its rate, and one that raises it.
use gcc_chrome.Common.{
  ◌≡◌, ◌≢◌, refl, ap, ◌∙◌, true, false, Option, none, some, List, [], ◌∷◌, inl, inr, Bool-cases,
  Bool, arith,
}
use gcc_chrome.Common.Double.{Double}
use gcc_chrome.Unit.{Timestamp, DataRate}
use gcc_chrome.Aimd.{
  BandwidthUsage, normal, underusing, overusing, last, hold, increase, decrease, Aimd, initialize,
  leave_hold, update, new_aimd,
}
use gcc_chrome.Aimd.Apply.{initialize-keeps}
use gcc_chrome.Aimd.Rate.{
  update-overusing, update-underusing, update-increases, before_increase, throughput_of, known,
  change-waiting,
}
use gcc_chrome.Aimd.Response.{CanRaise, increase_of-total, update-CanRaise}

pub data Phase : Type 0 where
  waiting holding increasing : Phase

-- What a signal of the network may do to a phase.
pub data Moves : BandwidthUsage → Phase → Phase → Type 0 where
  overuses : (p : Phase) → Moves overusing p holding
  drains : (p : Phase) → Moves underusing p holding
  rises : (p : Phase) → Moves normal p increasing
  waits : (usage : BandwidthUsage) → usage ≢ overusing → Moves usage waiting waiting

-- A signal with the throughput and the time of its update.
abbrev pub Signal : Type 0
Signal = BandwidthUsage × Option DataRate × Timestamp

-- The phases of a list of signals.
pub data Passes : List Signal → Phase → Phase → Type 0 where
  ends : (p : Phase) → Passes [] p p
  moves :
      (signal : Signal) (signals : List Signal) (p q r : Phase)
      → Moves signal.0 p q
      → Passes signals q r
      → Passes (signal ∷ signals) p r

abbrev pub AreSignals : List Signal → Type 0
AreSignals [] = Unit
AreSignals (signal ∷ signals) = (signal.0 ≢ last) × AreSignals signals

module _ {ℓ} {F : Type ℓ} where
  abbrev pub IsIn : Aimd F → Phase → Type 0
  IsIn s waiting = (s.bitrate_is_initialized ≡ false) × (s.rate_control_state ≡ hold)
  IsIn s holding = (s.bitrate_is_initialized ≡ true) × (s.rate_control_state ≡ hold)
  IsIn s increasing = (s.bitrate_is_initialized ≡ true) × (s.rate_control_state ≡ increase)

  settled : (s : Aimd F) (p : Phase) → IsIn s p → s.rate_control_state ≢ decrease
  settled s waiting h = ground arith
  settled s holding h = ground arith
  settled s increasing h = ground arith

  begun :
      (s r : Aimd F) → r ≡ s → s.bitrate_is_initialized ≡ true → r.bitrate_is_initialized ≢ false
  begun s r e h unready = ground arith

module _ {ℓ} (F : Type ℓ) ⦃fl : Double F⦄ where
  -- `Update` with one input after the other.
  unfoldable pub updates : Aimd F → List Signal → Option (Aimd F)
  updates s [] = some s
  updates s ((usage, throughput, at_time) ∷ inputs) =
      elim (update F s (record { bw_state = usage; estimated_throughput = throughput }) at_time) [
        | none ↦ none
        | some r ↦ updates r inputs
      ]

  -- An update that goes to a phase.
  abbrev Goes : Aimd F → BandwidthUsage → Option DataRate → Timestamp → Phase → Type ℓ
  Goes s usage throughput at_time p =
      (r : Aimd F) × (update F s (record { bw_state = usage; estimated_throughput = throughput })
          at_time
        ≡ some r)
      × (q : Phase) × IsIn r q
      × Moves usage p q

  update-waits :
      (s : Aimd F) (p : Phase) (usage : BandwidthUsage) (throughput : Option DataRate)
      (at_time : Timestamp)
      → IsIn s p
      → (initialize s throughput at_time).bitrate_is_initialized ≡ false
      → usage ≢ overusing
      → Goes s usage throughput at_time p
  unfolding update known
  update-waits s waiting usage throughput at_time (_, state) unready other = (
    known F (initialize s throughput at_time) throughput,
    change-waiting F (initialize s throughput at_time) usage throughput at_time unready other,
    waiting,
    (unready, (initialize-keeps F s throughput at_time).1 ∙ state),
    waits usage other,
  )
  update-waits s holding usage throughput at_time (ready, _) unready other = absurd (
      begun s (initialize s throughput at_time) ((initialize-keeps F s throughput at_time).2 ready)
        ready unready)
  update-waits s increasing usage throughput at_time (ready, _) unready other = absurd (
      begun s (initialize s throughput at_time) ((initialize-keeps F s throughput at_time).2 ready)
        ready unready)

  before_increase-CanRaise :
      (s : Aimd F) (throughput : Option DataRate) (at_time : Timestamp)
      → CanRaise s
      → CanRaise (before_increase F s throughput at_time)
  unfolding initialize leave_hold known
  before_increase-CanRaise s throughput at_time h = record {
    calm = ground arith;
    floor = ground arith;
    small = ground arith;
  }

  update-Moves :
      (s : Aimd F) (p : Phase) (usage : BandwidthUsage) (throughput : Option DataRate)
      (at_time : Timestamp)
      → IsIn s p
      → CanRaise s
      → usage ≢ last
      → Goes s usage throughput at_time p
  update-Moves s p normal throughput at_time h able signal =
      elim (Bool-cases (initialize s throughput at_time).bitrate_is_initialized) [
        | inl ready ↦
            let (raise, inc) =
              increase_of-total F (before_increase F s throughput at_time)
                (throughput_of F s throughput at_time) at_time
                (before_increase-CanRaise s throughput at_time able) in
            let (r, e, _, state, started) =
              update-increases F s throughput at_time raise ready (settled s p h) inc in
            (r, e, increasing, (started, state), rises p)
        | inr unready ↦ update-waits s p normal throughput at_time h unready (ground arith)
      ]
  update-Moves s p underusing throughput at_time h able signal =
      elim (Bool-cases (initialize s throughput at_time).bitrate_is_initialized) [
        | inl ready ↦
            let (r, e, _, state, started) = update-underusing F s throughput at_time ready in
            (r, e, holding, (started, state), drains p)
        | inr unready ↦ update-waits s p underusing throughput at_time h unready (ground arith)
      ]
  update-Moves s p overusing throughput at_time h able signal =
      let (r, e, _, _, state, started) = update-overusing F s throughput at_time in
      (r, e, holding, (started, state), overuses p)
  update-Moves s p last throughput at_time h able signal = absurd (signal refl)

  updates-Passes :
      (inputs : List Signal) (s : Aimd F) (p : Phase)
      → IsIn s p
      → CanRaise s
      → AreSignals inputs
      → (r : Aimd F) × (updates s inputs ≡ some r) × (q : Phase) × IsIn r q × Passes inputs p q
  unfolding updates
  updates-Passes [] s p h able signals = (s, refl, p, h, ends p)
  updates-Passes ((usage, throughput, at_time) ∷ inputs) s p h able (signal, signals) =
      let (r, e, q, h', move) = update-Moves s p usage throughput at_time h able signal in
      let (r', e', q', h'', pass) =
        updates-Passes inputs r q h' (update-CanRaise F s _ at_time r e able) signals in
      (
        r',
        ap (λ o. elim o [ none ↦ none | some t ↦ updates t inputs ]) e ∙ e',
        q',
        h'',
        moves (usage, throughput, at_time) inputs p q q' move pass,
      )

  -- The rate control implements the machine: from its start, whatever the throughputs and the times,
  -- any updates with the signals normal, underusing or overusing succeed, and lead through phases of
  -- the machine to the one that the object is in: after overuse or underuse it holds its rate, after
  -- a normal signal it raises it, unless it still waits for a first rate, which overuse ends at once.
  -- The state of decreasing is never left behind.
  pub updates-refine :
      (send_side : Bool) (inputs : List Signal)
      → AreSignals inputs
      → (r : Aimd F) × (updates (new_aimd send_side) inputs ≡ some r)
        × (q : Phase) × IsIn r q
        × Passes inputs waiting q
  unfolding new_aimd
  updates-refine send_side inputs signals =
      updates-Passes inputs (new_aimd send_side) waiting (refl, refl) started signals
    where
      started : CanRaise (new_aimd {F = F} send_side)
      started = record { calm = refl; floor = omega arith; small = omega arith }
