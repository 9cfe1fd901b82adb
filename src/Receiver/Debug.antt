-- ===== src/Receiver/Debug.antt =====
-- chrome_gcc/src/receiver.h: the counter of packets that ReceivePacket keeps, and its lines.
use gcc_chrome.Common.{
  ℕ, ◌+◌, ◌*◌, ◌%◌, ◌^◌, ◌≤◌, ◌<◌, ◌≡◌, Bool, true, false, if◌then◌else◌, List, [], ◌∷◌, ◌++◌,
  arith, refl, inl, inr, Bool-cases, ltb, ◌∙◌,
}
use gcc_chrome.Common.Double.{Double}
use gcc_chrome.Common.Int.{pos, ltb_ℤ}
use gcc_chrome.Common.Lists.{length, length-append}
use gcc_chrome.Packet.{default_packet_size}
use gcc_chrome.Unit.{Timestamp, TimeDelta, seconds, add}
use gcc_chrome.Unit.Exact.{add-eq}

pub record ReceiverDebuger : Type 0 where
  pub packet_received : ℕ
  pub print_info_duration : TimeDelta
  pub last_print_timestamp : Timestamp

unfoldable pub new_receiver_debuger : Timestamp → ReceiverDebuger
new_receiver_debuger now = record {
  packet_received = 0;
  print_info_duration = seconds 1;
  last_print_timestamp = now;
}

-- `PrintInfo`, at the times of its two calls of `Now`, with the numbers of packets of its lines.
unfoldable pub print_info : ReceiverDebuger → Timestamp → Timestamp → ReceiverDebuger × List ℕ
print_info d now then_now =
    if ltb_ℤ (add d.last_print_timestamp d.print_info_duration) now
    then (record d { packet_received = 0; last_print_timestamp = then_now }, d.packet_received ∷ [])
    else (d, [])

-- The kilobits per second of a line.
unfoldable pub printed_rate {ℓ} : (F : Type ℓ) ⦃fl : Double F⦄ → ℕ → F
printed_rate F ⦃fl⦄ packets =
    fl.div (fl.of_int (pos (packets * default_packet_size * 8 % 2 ^ 64))) (fl.of_int (pos 1000))

-- A call of `ReceivePacket`, which counts a datagram that came.
unfoldable pub count_packet : ReceiverDebuger → Bool → ReceiverDebuger
count_packet d came =
    if came then record d { packet_received = (d.packet_received + 1) % 2 ^ 64 } else d

unfoldable pub on_call : ReceiverDebuger → Bool × ℕ × ℕ → ReceiverDebuger × List ℕ
on_call d (came, now, then_now) = print_info (count_packet d came) (pos now) (pos then_now)

unfoldable pub calls : ReceiverDebuger → List (Bool × ℕ × ℕ) → ReceiverDebuger × List ℕ
calls d [] = (d, [])
calls d (c ∷ cs) =
    let first = on_call d c in let rest = calls first.0 cs in (rest.0, first.1 ++ rest.1)

abbrev pub sum : List ℕ → ℕ
sum [] = 0
sum (n ∷ ns) = n + sum ns

abbrev pub came_in : List (Bool × ℕ × ℕ) → ℕ
came_in [] = 0
came_in ((came, _, _) ∷ cs) = (if came then 1 else 0) + came_in cs

-- The clock does not go back, and shows times before a last one.
abbrev pub InOrder : ℕ → List (Bool × ℕ × ℕ) → ℕ → Type 0
InOrder start [] last = start ≤ last
InOrder start ((_, now, then_now) ∷ cs) last =
    (start ≤ now) × (now ≤ then_now) × InOrder then_now cs last

InOrder-le :
    (start : ℕ) (cs : List (Bool × ℕ × ℕ)) (last : ℕ) → InOrder start cs last → start ≤ last
InOrder-le start [] last h = h
InOrder-le start ((_, now, then_now) ∷ cs) last (h, h', later) =
    omega (arith, InOrder-le then_now cs last later)

count_lem :
    (d : ReceiverDebuger) (came : Bool)
    → d.packet_received + (if came then 1 else 0) < 2 ^ 64
    → (count_packet d came).packet_received ≡ d.packet_received + (if came then 1 else 0)
unfolding count_packet
count_lem d true small = ground arith
count_lem d false small = ground arith

count_packet-last :
    (d : ReceiverDebuger) (came : Bool)
    → ((count_packet d came).last_print_timestamp ≡ d.last_print_timestamp)
      × ((count_packet d came).print_info_duration ≡ d.print_info_duration)
unfolding count_packet
count_packet-last d true = (refl, refl)
count_packet-last d false = (refl, refl)

-- What a call does to a debuger that printed at `p`.
abbrev Counts : ReceiverDebuger → ℕ → ℕ → ℕ → ReceiverDebuger × List ℕ → Type 0
Counts d p n then_now r =
    (p' : ℕ) × (r.0.last_print_timestamp ≡ pos p')
    × (r.0.print_info_duration ≡ seconds 1)
    × (p' ≤ then_now)
    × (sum r.1 + r.0.packet_received ≡ n)
    × (p + length r.1 * 1_000_001 ≤ p')

print_info-Counts :
    (d : ReceiverDebuger) (p now then_now : ℕ)
    → d.last_print_timestamp ≡ pos p
    → d.print_info_duration ≡ seconds 1
    → p ≤ now
    → now ≤ then_now
    → then_now < 2 ^ 61
    → Counts d p d.packet_received then_now (print_info d (pos now) (pos then_now))
unfolding print_info
print_info-Counts d p now then_now last duration h h' small =
    let sum_eq : add d.last_print_timestamp d.print_info_duration ≡ pos (p + 1_000_000) =
      rw (last, duration)
        (add-eq (pos p) (pos 1_000_000) (refl, omega arith) (refl, omega arith)) in
    rw (sum_eq) (elim (Bool-cases (ltb (p + 1_000_000 + 0) (now + 0))) [
      | inl late ↦
          let second : p + 1_000_000 < now = ground arith in
          rw (late) (then_now, refl, duration, omega arith, omega arith, omega arith)
      | inr early ↦ rw (early) (p, last, duration, omega arith, omega arith, omega arith)
    ])

on_call-Counts :
    (d : ReceiverDebuger) (came : Bool) (p now then_now : ℕ)
    → d.last_print_timestamp ≡ pos p
    → d.print_info_duration ≡ seconds 1
    → p ≤ now
    → now ≤ then_now
    → then_now < 2 ^ 61
    → d.packet_received + (if came then 1 else 0) < 2 ^ 64
    → Counts d p
        (d.packet_received + (if came then 1 else 0))
        then_now
        (on_call d (came, now, then_now))
unfolding on_call
on_call-Counts d came p now then_now last duration h h' small fits =
    let kept = count_packet-last d came in
    let counts =
      print_info-Counts (count_packet d came) p now then_now (kept.0 ∙ last) (kept.1 ∙ duration) h
        h' small in
    let counted = count_lem d came fits in
    (counts.0, counts.1, counts.2, counts.3, omega (arith, counts.4, counted), counts.5)

sum-append : (xs ys : List ℕ) → sum (xs ++ ys) ≡ sum xs + sum ys
sum-append [] ys = omega arith
sum-append (x ∷ xs) ys = omega (arith, sum-append xs ys)

-- Every datagram that came is counted in one line or still to be printed, and two lines are more than
-- a second apart: the clock does not go back in the calls, its times are below 2^61 microseconds, the
-- datagrams fewer than 2^64, and the debuger printed no later than the first call.
pub calls-counts :
    (cs : List (Bool × ℕ × ℕ)) (d : ReceiverDebuger) (p t last : ℕ)
    → d.last_print_timestamp ≡ pos p
    → d.print_info_duration ≡ seconds 1
    → p ≤ t
    → InOrder t cs last
    → last < 2 ^ 61
    → d.packet_received + came_in cs < 2 ^ 64
    → let r = calls d cs in
      (sum r.1 + r.0.packet_received ≡ d.packet_received + came_in cs)
      × (p + length r.1 * 1_000_001 ≤ last)
unfolding calls
calls-counts [] d p t last e e' h ordered small fits = (omega arith, omega arith)
calls-counts ((came, now, then_now) ∷ cs) d p t last e e' h (h1, h2, later) small fits =
    let before = InOrder-le then_now cs last later in
    let (p', e1, e2, h3, counted, spaced) =
      on_call-Counts d came p now then_now e e' (omega arith) h2 (omega arith) (omega arith) in
    let first = on_call d (came, now, then_now) in
    let (all, apart) =
      calls-counts cs first.0 p' then_now last e1 e2 h3 later small (omega arith) in
    let rest = calls first.0 cs in
    (
      omega (arith, sum-append first.1 rest.1, all, counted),
      omega (arith, length-append first.1 rest.1, apart, spaced),
    )
