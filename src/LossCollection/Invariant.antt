-- ===== src/LossCollection/Invariant.antt =====
-- What holds of the two windows between packets that arrive in order.
use gcc_chrome.Common.{ℕ, ◌+◌, ◌<◌, ◌≤◌, ◌≡◌, refl, true, false, arith, Bool-cases, inl, inr, ap}
use gcc_chrome.Common.Int.{ℤ, pos, pos_part, neg_part, ltb_ℤ}
use gcc_chrome.Common.Result.{ok}
use gcc_chrome.Unit.{TimeDelta, add}
use gcc_chrome.Unit.Exact.{IsClock, add-eq}
use gcc_chrome.LossCollection.{
  ReceiveVector, ReceiverLossCollection, LossReportUpdate, received_count, on_new_report_generated,
  no_report, report_of, report_due, receive_duration, maybe_generate_report, get_wait_duration,
  reset,
}
use gcc_chrome.LossCollection.Window.{IsIdle, IsWindow, IsWindow-later, received_in}

-- The wait lasts from 100 to 190 milliseconds.
abbrev pub IsWait : TimeDelta → Type 0
IsWait d = (neg_part d ≡ 0) × (100_000 ≤ pos_part d) × (pos_part d ≤ 190_000)

pub get_wait_duration-IsWait : (rtt : TimeDelta) → IsWait (get_wait_duration rtt)
unfolding get_wait_duration
get_wait_duration-IsWait rtt = ground arith

report_due-eq :
    (w : ReceiveVector) (n : ℕ) (t : ℤ)
    → IsWindow w n t
    → IsClock t
    → IsWait w.wait_duration
    → report_due w ≡ pos (pos_part w.first_received_time + 200_000 + pos_part w.wait_duration)
unfolding report_due
report_due-eq w n t h c d = ground (
  arith,
  add-eq w.first_received_time receive_duration,
  add-eq (pos (pos_part w.first_received_time + 200_000)) w.wait_duration,
)

pub due-le :
    (w : ReceiveVector) (n : ℕ) (t : ℤ)
    → IsWindow w n t
    → IsClock t
    → IsWait w.wait_duration
    → pos_part (report_due w) ≤ pos_part w.first_received_time + 390_000
due-le w n t h c d = omega (arith, ap pos_part (report_due-eq w n t h c d))

-- The windows before a packet that arrives at `t`, when the packets so far end at number `n` and the
-- report that is due has been made. Each window is idle, or holds its packets.
pub data Ready (s : ReceiverLossCollection) (n : ℕ) (t : ℤ) : Type 0 where
  fresh :
      IsIdle s.in_effect_vector
      → IsIdle s.wait_vector
      → s.in_effect_vector.first_packet_number ≤ n + 1
      → Ready s n t
  filling : IsWindow s.in_effect_vector n t → IsIdle s.wait_vector → Ready s n t
  waiting :
      (m : ℕ)
      → IsIdle s.in_effect_vector
      → IsWindow s.wait_vector m t
      → s.in_effect_vector.first_packet_number ≤ n + 1
      → IsWait s.wait_vector.wait_duration
      → pos_part s.wait_vector.first_received_time + 200_000 < pos_part t
      → pos_part t ≤ pos_part (report_due s.wait_vector)
      → Ready s n t
  both :
      (m : ℕ)
      → IsWindow s.in_effect_vector n t
      → IsWindow s.wait_vector m t
      → IsWait s.wait_vector.wait_duration
      → pos_part s.wait_vector.first_received_time + 200_000
        < pos_part s.in_effect_vector.first_received_time
      → pos_part t ≤ pos_part (report_due s.wait_vector)
      → Ready s n t

-- The windows after the packet number `n`, which came at `t`.
pub data Between (s : ReceiverLossCollection) (n : ℕ) (t : ℤ) : Type 0 where
  fresh :
      IsIdle s.in_effect_vector
      → IsIdle s.wait_vector
      → s.in_effect_vector.first_packet_number ≤ n + 1
      → Between s n t
  filling :
      IsWindow s.in_effect_vector n t
      → IsIdle s.wait_vector
      → pos_part t ≤ pos_part s.in_effect_vector.first_received_time + 200_000
      → Between s n t
  waiting :
      (m : ℕ)
      → IsIdle s.in_effect_vector
      → IsWindow s.wait_vector m t
      → s.in_effect_vector.first_packet_number ≤ n + 1
      → IsWait s.wait_vector.wait_duration
      → pos_part s.wait_vector.first_received_time + 200_000 < pos_part t
      → Between s n t
  both :
      (m : ℕ)
      → IsWindow s.in_effect_vector n t
      → IsWindow s.wait_vector m t
      → IsWait s.wait_vector.wait_duration
      → pos_part s.wait_vector.first_received_time + 200_000
        < pos_part s.in_effect_vector.first_received_time
      → pos_part t ≤ pos_part (report_due s.wait_vector)
      → Between s n t

-- The marks of both windows.
abbrev pub pending : ReceiverLossCollection → ℕ
pending s = received_in s.wait_vector + received_in s.in_effect_vector

-- The waiting window is reported if it is due, and nothing is lost of what was received.
abbrev pub Generates : ReceiverLossCollection → ℕ → ℤ → Type 0
Generates s n t =
    (s' : ReceiverLossCollection) × (r : LossReportUpdate) × (maybe_generate_report s t
      ≡ ok (s', r))
    × Ready s' n t
    × (s'.in_effect_vector ≡ s.in_effect_vector)
    × (r.report.packets_received_delta + pending s' ≡ pending s)

idle_generates :
    (s : ReceiverLossCollection) (t : ℤ)
    → IsIdle s.wait_vector
    → maybe_generate_report s t ≡ ok (s, no_report)
unfolding maybe_generate_report received_count
idle_generates s t h = ground arith

reset-IsIdle : (v : ReceiveVector) → IsIdle (reset v)
unfolding reset
reset-IsIdle v = record {
  empty = refl;
  no_first_time = refl;
  no_largest_time = refl;
  no_largest = refl;
}

reset-received : (v : ReceiveVector) → received_in (reset v) ≡ 0
unfolding reset received_count
reset-received v = refl

late_generates :
    (s : ReceiverLossCollection) (t : ℤ)
    → ltb_ℤ (report_due s.wait_vector) t ≡ false
    → maybe_generate_report s t ≡ ok (s, no_report)
unfolding maybe_generate_report
late_generates s t h = ground arith

-- The assertion on the window in effect.
abbrev InTime : ReceiverLossCollection → Type 0
InTime s =
    ltb_ℤ s.in_effect_vector.largest_received_time
      (add s.in_effect_vector.first_received_time receive_duration)
    ≡ true

due_generates :
    (s : ReceiverLossCollection) (t : ℤ)
    → InTime s
    → 0 < received_in s.wait_vector
    → ltb_ℤ (report_due s.wait_vector) t ≡ true
    → maybe_generate_report s t
      ≡ ok (record s { wait_vector = reset s.wait_vector }, report_of s.wait_vector t)
unfolding maybe_generate_report on_new_report_generated
due_generates s t asserted h due = ground arith

report_of-received :
    (w : ReceiveVector) (t : ℤ) → (report_of w t).report.packets_received_delta ≡ received_in w
unfolding report_of
report_of-received w t = refl

idle-InTime : (s : ReceiverLossCollection) → IsIdle s.in_effect_vector → InTime s
unfolding add
idle-InTime s h = rw (h.no_largest_time, h.no_first_time) refl

window-InTime :
    (s : ReceiverLossCollection) (n : ℕ) (t : ℤ)
    → IsWindow s.in_effect_vector n t
    → pos_part t < pos_part s.in_effect_vector.first_received_time + 200_000
    → InTime s
window-InTime s n t h near =
    ground (arith, add-eq s.in_effect_vector.first_received_time receive_duration)

-- Whether the report on a waiting window is due or not.
generates :
    (s : ReceiverLossCollection) (n m : ℕ) (t t' : ℤ)
    → IsWindow s.wait_vector m t
    → InTime s
    → Ready (record s { wait_vector = reset s.wait_vector }) n t'
    → (ltb_ℤ (report_due s.wait_vector) t' ≡ false → Ready s n t')
    → Generates s n t'
generates s n m t t' w asserted made kept =
    elim (Bool-cases (ltb_ℤ (report_due s.wait_vector) t')) [
      | inl due ↦ (
        record s { wait_vector = reset s.wait_vector },
        report_of s.wait_vector t',
        due_generates s t' asserted w.received due,
        made,
        refl,
        omega (arith, reset-received s.wait_vector, report_of-received s.wait_vector t'),
      )
      | inr early ↦ (s, no_report, late_generates s t' early, kept early, refl, omega arith)
    ]

-- The report that is due at the arrival of the next packet is made, no assertion fails, and every
-- mark is reported or kept.
pub maybe_generate_report-Ready :
    (s : ReceiverLossCollection) (n : ℕ) (t t' : ℤ)
    → Between s n t
    → IsClock t
    → IsClock t'
    → pos_part t ≤ pos_part t'
    → Generates s n t'
maybe_generate_report-Ready s n t t' (fresh e w le) c c' later =
    (s, no_report, idle_generates s t' w, fresh e w le, refl, omega arith)
maybe_generate_report-Ready s n t t' (filling e w at) c c' later = (
  s,
  no_report,
  idle_generates s t' w,
  filling (IsWindow-later s.in_effect_vector n t t' e later) w,
  refl,
  omega arith,
)
maybe_generate_report-Ready s n t t' (waiting m e w le d gap) c c' later =
    generates s n m t t' w (idle-InTime s e) (fresh e (reset-IsIdle s.wait_vector) le) λ early.
      waiting m e (IsWindow-later s.wait_vector m t t' w later) le d (omega arith) (ground arith)
maybe_generate_report-Ready s n t t' (both m e w d gap due) c c' later =
    generates s n m t t' w (window-InTime s n t e (omega (arith, due-le s.wait_vector m t w c d)))
      (filling (IsWindow-later s.in_effect_vector n t t' e later) (reset-IsIdle s.wait_vector))
      λ early.
        both m (IsWindow-later s.in_effect_vector n t t' e later)
          (IsWindow-later s.wait_vector m t t' w later) d gap (ground arith)
