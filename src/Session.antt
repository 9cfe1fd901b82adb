-- ===== src/Session.antt =====
-- The loops of chrome_gcc/src/sender_test.cc and receiver_test.cc: the sender's calls of SendPacket and
-- ReceivePacket, the receiver's of ReceivePacket, in any order, over a network that may lose packets
-- and let reports overtake each other.
pub mod Lists
pub mod Steps
pub mod Safety
mod Tests
use gcc_chrome.Common.{ℕ, zero, suc, Bool, Option, none, some, List, [], ◌∷◌, ◌++◌}
use gcc_chrome.Common.Double.{Double}
use gcc_chrome.Common.Int.{pos}
use gcc_chrome.Common.Lists.{length}
use gcc_chrome.Common.Result.{Result, ok, err, ◌>>=◌}
use gcc_chrome.Packet.{Text, ParseError}
use gcc_chrome.Sender as S
use gcc_chrome.Sender.{Sender, send_packet}
use gcc_chrome.Receiver as R
use gcc_chrome.Receiver.{Receiver}

-- The two programs, the texts on their way, and all the texts that the receiver has sent so far.
pub record Session {ℓ} (F : Type ℓ) : Type ℓ where
  pub sender : Sender F
  pub receiver : Receiver F
  pub packets : List Text
  pub reports : List Text
  pub told : List Text

-- The calls, with the times that the clocks show in them, and what the network does to the texts at a
-- place in the order.
pub data Event : Type 0 where
  sends : ℕ → ℕ → ℕ → Event
  sender_receives : ℕ → Event
  receiver_receives : ℕ → ℕ → Event
  loses_data : ℕ → Event
  loses_report : ℕ → Event
  overtakes : ℕ → Event

pub data Fault : Type 0 where
  of_sender : ParseError → Fault
  of_receiver : R.Fault → Fault

abbrev pub at_sender {ℓ} : {A : Type ℓ} → Result ParseError A → Result Fault A
at_sender (ok a) = ok a
at_sender (err e) = err (of_sender e)

abbrev pub at_receiver {ℓ} : {A : Type ℓ} → Result R.Fault A → Result Fault A
at_receiver (ok a) = ok a
at_receiver (err e) = err (of_receiver e)

-- The text that waits longest at a socket, and the others.
abbrev pub first : List Text → Option Text
first [] = none
first (t ∷ ts) = some t

-- What the sender's socket has, with no text as an empty one. A text that the receiver sends holds no
-- NUL, so that all of it is in the buffer.
abbrev pub waiting : List Text → Text
waiting [] = []
waiting (t ∷ ts) = t

abbrev pub others : List Text → List Text
others [] = []
others (t ∷ ts) = ts

unfoldable pub lose : ℕ → List Text → List Text
lose k [] = []
lose zero (t ∷ ts) = ts
lose (suc k) (t ∷ ts) = t ∷ lose k ts

-- The text at a place comes before all others.
unfoldable pub overtake : ℕ → List Text → List Text
overtake k [] = []
overtake zero (t ∷ ts) = t ∷ ts
overtake (suc k) (t ∷ ts) = elim (overtake k ts) [ [] ↦ t ∷ [] | u ∷ us ↦ u ∷ t ∷ us ]

module _ {ℓ} {F : Type ℓ} ⦃fl : Double F⦄ where
  unfoldable pub new_session : Sender F → Receiver F → Session F
  new_session sender receiver = record {
    sender = sender;
    receiver = receiver;
    packets = [];
    reports = [];
    told = [];
  }

  unfoldable pub step : Session F → Event → Result Fault (Session F)
  step s (sends now then_now make_now) = do
    r ← at_sender (send_packet F s.sender (pos now) (pos then_now) (pos make_now))
    ok (record s { sender = r.0; packets = s.packets ++ r.1 })
  step s (sender_receives now) = do
    sender ←
        at_sender
          (S.receive_packet s.sender (length (waiting s.reports)) (waiting s.reports) (pos now))
    ok (record s { sender = sender; reports = others s.reports })
  step s (receiver_receives feedback_time receive_time) = do
    r ←
        at_receiver
          (R.receive_packet s.receiver (first s.packets) (pos feedback_time) (pos receive_time))
    ok (record s {
      receiver = r.0;
      packets = others s.packets;
      reports = s.reports ++ r.1;
      told = s.told ++ r.1;
    })
  step s (loses_data k) = ok (record s { packets = lose k s.packets })
  step s (loses_report k) = ok (record s { reports = lose k s.reports })
  step s (overtakes k) = ok (record s { reports = overtake k s.reports })

  unfoldable pub run : Session F → List Event → Result Fault (Session F)
  run s [] = ok s
  run s (e ∷ es) = step s e >>= λ r. run r es
