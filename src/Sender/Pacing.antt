-- ===== src/Sender/Pacing.antt =====
-- The pace at which the sender sends.
use gcc_chrome.Common.{
  ℕ, ◌+◌, ◌*◌, ◌^◌, ◌≤◌, ◌<◌, ◌≡◌, refl, ◌∙◌, ap, true, false, inl, inr, Bool-cases, List, [], ◌∷◌,
  ◌++◌, ltb, arith,
}
use Prim.Native.Nat.{max}
use gcc_chrome.Common.Double.{Double}
use gcc_chrome.Common.Int.{ℤ, pos, ltb_ℤ, int64, to_u64, ◌+ℤ◌}
use gcc_chrome.Common.Lists.{length}
use gcc_chrome.Common.Result.{Result, ok, ◌>>=◌}
use gcc_chrome.Packet.{Text, ParseError, default_packet_size}
use gcc_chrome.Sender.{
  Sender, one_second, set_next_send_time, is_time_to_send_next_packet, make_packet_and_send,
  send_packet,
}

-- The times of the calls of `Now` in calls of `SendPacket`, from one time to another.
abbrev pub Ticks : ℕ → List (ℕ × ℕ × ℕ) → ℕ → Type 0
Ticks start [] last = start ≤ last
Ticks start ((a, b, c) ∷ ts) last = (start ≤ a) × (a ≤ b) × (b ≤ c) × Ticks c ts last

Ticks-le : (start : ℕ) (ts : List (ℕ × ℕ × ℕ)) (last : ℕ) → Ticks start ts last → start ≤ last
Ticks-le start [] last h = h
Ticks-le start ((a, b, c) ∷ ts) last (h, h', h'', later) =
    omega (arith, h, h', h'', Ticks-le c ts last later)

module _ {ℓ} (F : Type ℓ) ⦃fl : Double F⦄ where
  -- The microseconds that a packet takes at a pacing rate.
  abbrev pub interval : ℕ → ℤ
  interval rate =
      fl.to_int
        (fl.div (fl.of_int (pos (default_packet_size * 8 * one_second))) (fl.of_int (pos rate)))

  pub run : Sender F → List (ℕ × ℕ × ℕ) → Result ParseError (Sender F × List Text)
  run s [] = ok (s, [])
  run s ((a, b, c) ∷ ts) = send_packet F s (pos a) (pos b) (pos c) >>= λ r.
      run r.0 ts >>= λ rest. ok (rest.0, r.1 ++ rest.1)

  next_time_lem : (b d : ℕ) → b + d < 2 ^ 62 → int64 (pos b +ℤ pos d) ≡ pos (b + d)
  unfolding int64 to_u64 ◌+ℤ◌
  next_time_lem b d small = ground arith

  set_next_send_time_lem :
      (s : Sender F) (b d : ℕ)
      → 0 < s.pacing_rate
      → interval s.pacing_rate ≡ pos d
      → b + d < 2 ^ 62
      → set_next_send_time F s (pos b) ≡ ok (record s { next_send_timestamp = pos (b + d) })
  unfolding set_next_send_time
  set_next_send_time_lem s b d paces e small =
      let positive : ltb 0 s.pacing_rate ≡ true = ground arith in
      rw (positive, e, next_time_lem b d small) refl

  sent :
      (s : Sender F) (next a b c d : ℕ)
      → 0 < s.pacing_rate
      → interval s.pacing_rate ≡ pos d
      → s.next_send_timestamp ≡ pos next
      → next < a
      → b + d < 2 ^ 62
      → (r : Sender F) × (text : Text) × (send_packet F s (pos a) (pos b) (pos c)
          ≡ ok (r, text ∷ []))
        × (r.next_send_timestamp ≡ pos (b + d))
        × (r.pacing_rate ≡ s.pacing_rate)
  unfolding send_packet is_time_to_send_next_packet make_packet_and_send
  sent s next a b c d paces e at due small =
      let ready : ltb_ℤ s.next_send_timestamp (pos a) ≡ true = ground arith in
      let due_state = record s { next_send_timestamp = pos (b + d) } in
      let done = make_packet_and_send F due_state (pos c) in
      (done.0, done.1, rw (ready, set_next_send_time_lem s b d paces e small) refl, refl, refl)

  kept :
      (s : Sender F) (next a b c : ℕ)
      → s.next_send_timestamp ≡ pos next
      → a ≤ next
      → send_packet F s (pos a) (pos b) (pos c) ≡ ok (s, [])
  unfolding send_packet is_time_to_send_next_packet
  kept s next a b c at early =
      let waits : ltb_ℤ s.next_send_timestamp (pos a) ≡ false = ground arith in rw waits refl

  -- Calls of `SendPacket` at times that do not fall, of at most 2^62 microseconds with the time that
  -- a packet takes, succeed at a positive pacing rate, and send no more packets than the time has
  -- room for: of the packets that they send, all but one fit, at that time for each, between the
  -- time at which the next packet is due at the start and the end.
  pub run-paced :
      (s : Sender F) (ticks : List (ℕ × ℕ × ℕ)) (next start last d : ℕ)
      → 0 < s.pacing_rate
      → interval s.pacing_rate ≡ pos d
      → s.next_send_timestamp ≡ pos next
      → Ticks start ticks last
      → last + d < 2 ^ 62
      → (r : Sender F) × (texts : List Text) × (run s ticks ≡ ok (r, texts))
        × (next + length texts * d ≤ max next (last + d))
  unfolding run
  run-paced s [] next start last d paces e at ticks small = (s, [], refl, omega arith)
  run-paced s ((a, b, c) ∷ ts) next start last d paces e at (h, h', h'', later) small =
      elim (Bool-cases (ltb next a)) [
        | inl due ↦
            let less : next < a = ground arith in
            let b_last = Ticks-le c ts last later in
            let (q, text, e', at', same) = sent s next a b c d paces e at less (omega arith) in
            let (r, texts, e'', room) =
              run-paced q ts (b + d) c last d (omega (arith, same, paces)) (ap interval same ∙ e)
                at' later small in
            (r, text ∷ texts, rw (e', e'') refl, omega (arith, room, b_last, h', h'', less))
        | inr early ↦
            let (r, texts, e'', room) = run-paced s ts next c last d paces e at later small in
            (r, texts, rw (kept s next a b c at (ground arith), e'') refl, room)
      ]
