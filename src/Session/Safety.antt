-- ===== src/Session/Safety.antt =====
-- What holds after any calls of the two programs.
use gcc_chrome.Common.{
  ℕ, ◌+◌, ◌^◌, ◌≤◌, ◌<◌, ◌≡◌, refl, sym, ◌∙◌, inl, inr, Bool, some, List, [], ◌∷◌, ◌++◌, arith,
}
use Prim.Native.Nat.{max}
use mathlib.Core.Path.{subst}
use mathlib.Core.List.{append-nil, mem-append_left}
use gcc_chrome.Common.Double.{Double}
use gcc_chrome.Common.Int.{pos, to_u64}
use gcc_chrome.Common.Lists.{All, All-append}
use gcc_chrome.Common.Result.{ok}
use gcc_chrome.Unit.{DataRate}
use gcc_chrome.Packet.{Text}
use gcc_chrome.Sender.{Sender, new_sender, started_sender, min_pacing_rate}
use gcc_chrome.Sender.Told.{heard_limit, Limits, Paces, started_sender-Limits}
use gcc_chrome.Controller.{Config}
use gcc_chrome.Receiver.{Receiver, new_receiver}
use gcc_chrome.Receiver.Reports.{IsSound, new_receiver-IsSound}
use gcc_chrome.Session.{
  Session, Event, sends, sender_receives, receiver_receives, loses_data, loses_report, overtakes,
  lose, overtake, others, new_session, step, run,
}
use gcc_chrome.Session.Lists.{
  InFlight, InFlight-snoc, lose-InFlight, others-All, lose-All, overtake-All, IsTold, later-IsTold,
  Messages-IsTold,
}
use gcc_chrome.Session.Steps.{
  IsHeard, Sends, send_packet-Sends, receive_packet-Limits, receive_packet-IsSound,
}

-- The calls from then on, when the sender has been called `m` times and the receiver's clock has shown
-- `t`: fewer than 10^10 calls of SendPacket, at times of at most 15 digits, and receiver times that
-- do not fall.
abbrev pub IsTimely : ℕ → ℕ → List Event → Type 0
IsTimely m t [] = Unit
IsTimely m t (sends a b c ∷ es) = (m + 1 < 10 ^ 10) × (c < 10 ^ 15) × IsTimely (m + 1) t es
IsTimely m t (receiver_receives a b ∷ es) = (t ≤ b) × (b < 2 ^ 61) × IsTimely m b es
IsTimely m t (_ ∷ es) = IsTimely m t es

IsHeard-append :
    (told more : List Text) (rate : DataRate) → IsHeard told rate → IsHeard (told ++ more) rate
IsHeard-append told more rate (inl e) = inl e
IsHeard-append told more rate (inr mem) = inr (mem-append_left more mem)

module _ {ℓ} {F : Type ℓ} ⦃fl : Double F⦄ where
  -- After at most `m` calls of SendPacket, up to the receiver time `t`.
  pub record IsSafe (s : Session F) (m t : ℕ) : Type 0 where
    pub last : ℕ
    pub last_time : ℕ
    pub rate : DataRate
    pub sound : IsSound s.receiver last (pos last_time)
    pub past : last_time ≤ t
    pub flight : InFlight last s.packets s.sender.recent_packet_number
    pub few : s.sender.recent_packet_number ≤ m
    pub limits : Limits s.sender rate
    pub paces : Paces s.sender rate
    pub heard : IsHeard s.told rate
    pub reports : All (IsTold s.told) s.reports

  Sends-InFlight :
      (s q : Sender F) (n c : ℕ) (packets texts : List Text)
      → InFlight n packets s.recent_packet_number
      → Sends s (pos c) q texts
      → c < 10 ^ 15
      → InFlight n (packets ++ texts) q.recent_packet_number
        × (q.recent_packet_number ≤ s.recent_packet_number + 1)
  Sends-InFlight s q n c packets texts h (inl (e, same)) time =
      (rw (e, same, append-nil) h, omega (arith, same))
  Sends-InFlight s q n c packets texts h (inr (p, e, number, next, at, size)) time =
      let newer =
        InFlight-snoc n packets s.recent_packet_number p h (omega (arith, number))
          (ground (arith, at, time)) (omega (arith, size)) in
      (rw (e, next ∙ sym number) newer, omega (arith, next))

  sends-IsSafe :
      (s : Session F) (m t a b c : ℕ)
      → IsSafe s m t
      → m + 1 < 10 ^ 10
      → c < 10 ^ 15
      → (r : Session F) × (step s (sends a b c) ≡ ok r) × IsSafe r (m + 1) t
  unfolding step
  sends-IsSafe s m t a b c h few time =
      let (q, texts, e, sent, limits, paces) =
        send_packet-Sends s.sender (pos a) (pos b) (pos c) h.rate (omega (arith, h.few, few))
          h.limits h.paces in
      let r = record s { sender = q; packets = s.packets ++ texts } in
      let (flight, next) = Sends-InFlight s.sender q h.last c s.packets texts h.flight sent time in
      (
        r,
        rw e refl,
        record {
          last = h.last;
          last_time = h.last_time;
          rate = h.rate;
          sound = h.sound;
          past = h.past;
          flight = flight;
          few = omega (arith, next, h.few);
          limits = limits;
          paces = paces;
          heard = h.heard;
          reports = h.reports;
        },
      )

  sender_receives-IsSafe :
      (s : Session F) (m t a : ℕ)
      → IsSafe s m t
      → (r : Session F) × (step s (sender_receives a) ≡ ok r) × IsSafe r m t
  unfolding step
  sender_receives-IsSafe s m t a h =
      let (q, e, same, rate, limits, paces, heard) =
        receive_packet-Limits s.sender h.rate s.told s.reports (pos a) h.limits h.paces h.heard
          h.reports in
      let r = record s { sender = q; reports = others s.reports } in
      (
        r,
        rw e refl,
        record {
          last = h.last;
          last_time = h.last_time;
          rate = rate;
          sound = h.sound;
          past = h.past;
          flight = subst (λ k. InFlight h.last s.packets k) (sym same) h.flight;
          few = omega (arith, same, h.few);
          limits = limits;
          paces = paces;
          heard = heard;
          reports = others-All (IsTold s.told) s.reports h.reports;
        },
      )

  receiver_receives-IsSafe :
      (s : Session F) (m t a b : ℕ)
      → IsSafe s m t
      → m < 10 ^ 10
      → t ≤ b
      → b < 2 ^ 61
      → (r : Session F) × (step s (receiver_receives a b) ≡ ok r) × IsSafe r m b
  unfolding step
  receiver_receives-IsSafe s m t a b h few later clock =
      let number = s.sender.recent_packet_number in
      let (q, texts, e, n, t', past, sound, flight, said) =
        receive_packet-IsSound s.receiver h.last h.last_time number s.packets a b h.sound h.flight
          (omega (arith, h.few, few)) (omega (arith, h.past, later)) clock in
      let r = record s {
        receiver = q;
        packets = others s.packets;
        reports = s.reports ++ texts;
        told = s.told ++ texts;
      } in
      (
        r,
        rw e refl,
        record {
          last = n;
          last_time = t';
          rate = h.rate;
          sound = sound;
          past = past;
          flight = flight;
          few = h.few;
          limits = h.limits;
          paces = h.paces;
          heard = IsHeard-append s.told texts h.rate h.heard;
          reports =
              All-append (IsTold (s.told ++ texts)) s.reports texts
                (later-IsTold s.told texts s.reports h.reports)
                (Messages-IsTold s.receiver.last_remb_rate q.last_remb_rate s.told texts said);
        },
      )

  -- What the network does to the texts on their way.
  delivers-IsSafe :
      (s : Session F) (m t : ℕ) (packets reports : List Text) (h : IsSafe s m t)
      → InFlight h.last packets s.sender.recent_packet_number
      → All (IsTold s.told) reports
      → IsSafe (record s { packets = packets; reports = reports }) m t
  delivers-IsSafe s m t packets reports h flight told = record {
    last = h.last;
    last_time = h.last_time;
    rate = h.rate;
    sound = h.sound;
    past = h.past;
    flight = flight;
    few = h.few;
    limits = h.limits;
    paces = h.paces;
    heard = h.heard;
    reports = told;
  }

  run-IsSafe :
      (s : Session F) (m t : ℕ) (es : List Event)
      → IsSafe s m t
      → m < 10 ^ 10
      → IsTimely m t es
      → (r : Session F) × (m' : ℕ) × (t' : ℕ) × (run s es ≡ ok r) × IsSafe r m' t'
  unfolding run step
  run-IsSafe s m t [] h few timely = (s, m, t, refl, h)
  run-IsSafe s m t (sends a b c ∷ es) h few (more, time, timely) =
      let (q, e, safe) = sends-IsSafe s m t a b c h more time in
      let (r, m', t', e', safe') = run-IsSafe q (m + 1) t es safe more timely in
      (r, m', t', rw e e', safe')
  run-IsSafe s m t (sender_receives a ∷ es) h few timely =
      let (q, e, safe) = sender_receives-IsSafe s m t a h in
      let (r, m', t', e', safe') = run-IsSafe q m t es safe few timely in
      (r, m', t', rw e e', safe')
  run-IsSafe s m t (receiver_receives a b ∷ es) h few (later, clock, timely) =
      let (q, e, safe) = receiver_receives-IsSafe s m t a b h few later clock in
      let (r, m', t', e', safe') = run-IsSafe q m b es safe few timely in
      (r, m', t', rw e e', safe')
  run-IsSafe s m t (loses_data k ∷ es) h few timely =
      let packets = lose k s.packets in
      let flight = lose-InFlight k h.last s.packets s.sender.recent_packet_number h.flight in
      run-IsSafe (record s { packets = packets }) m t es
        (delivers-IsSafe s m t packets s.reports h flight h.reports) few timely
  run-IsSafe s m t (loses_report k ∷ es) h few timely =
      let reports = lose k s.reports in
      run-IsSafe (record s { reports = reports }) m t es
        (delivers-IsSafe s m t s.packets reports h h.flight
          (lose-All (IsTold s.told) k s.reports h.reports))
        few timely
  run-IsSafe s m t (overtakes k ∷ es) h few timely =
      let reports = overtake k s.reports in
      run-IsSafe (record s { reports = reports }) m t es
        (delivers-IsSafe s m t s.packets reports h h.flight
          (overtake-All (IsTold s.told) k s.reports h.reports))
        few timely

module _ {ℓ} (F : Type ℓ) ⦃fl : Double F⦄ where
  -- A sender and a receiver whose configurations give a starting rate are made, and run without an
  -- exception, a failed assertion or an access outside a vector over any calls of SendPacket and
  -- ReceivePacket in any order, fewer than 10^10 of SendPacket at times of at most 15 digits, with
  -- receiver times that do not fall, while the network may lose any packets, and let reports overtake
  -- each other; the byte that number_to_fix_len_string writes past its buffer is taken to be free. In the end
  -- the limit of the sender is none or a rate that the receiver has sent, and it paces its packets
  -- at no less than 100 kbps and no more than the limit, or than 100 kbps.
  pub session_runs :
      (sender_config config : Config F) (has_predictor in_alr : Bool) (sender_rate rate : DataRate)
      (es : List Event)
      → sender_config.constraints.starting_rate ≡ some sender_rate
      → config.constraints.starting_rate ≡ some rate
      → IsTimely 0 0 es
      → (sender : Sender F) × (new_sender sender_config ≡ some sender)
        × (receiver : Receiver F) × (new_receiver config has_predictor in_alr ≡ some receiver)
        × (s : Session F) × (run (new_session sender receiver) es ≡ ok s)
        × (told : DataRate) × IsHeard s.told told
        × (s.sender.bandwidth_estimation.receiver_limit ≡ heard_limit told)
        × (min_pacing_rate ≤ s.sender.pacing_rate)
        × (s.sender.pacing_rate ≤ max (to_u64 (heard_limit told)) min_pacing_rate)
  unfolding new_session started_sender new_sender
  session_runs sender_config config has_predictor in_alr sender_rate rate es starts given timely =
      let (receiver, e, sound, _) = new_receiver-IsSound F config has_predictor in_alr rate given in
      let (limits, paces) = started_sender-Limits F in
      let first = new_session started_sender receiver in
      let safe : IsSafe first 0 0 = record {
        last = 0;
        last_time = 0;
        rate = pos 0;
        sound = sound;
        past = omega arith;
        flight = omega arith;
        few = omega arith;
        limits = limits;
        paces = paces;
        heard = inl refl;
        reports = tt;
      } in
      let (s, _, _, e', h) = run-IsSafe first 0 0 es safe (omega arith) timely in
      (
        started_sender,
        rw (starts) refl,
        receiver,
        e,
        s,
        e',
        h.rate,
        h.heard,
        h.limits.1,
        h.paces.0,
        h.paces.1,
      )
