-- ===== src/Session/Tests.antt =====
-- Three packets, of which the network loses the second, and the reports on them.
use Prim.Native.Nat.{max}
use gcc_chrome.Common.{◌≤◌, ◌≡◌, refl, false, none, some, List, [], ◌∷◌, arith}
use gcc_chrome.Common.Fixed.{Fixed, fixed}
use gcc_chrome.Common.Int.{pos, to_u64}
use gcc_chrome.Common.Result.{ok}
use gcc_chrome.Unit.{DataRate, seconds}
use gcc_chrome.Controller.{Config}
use gcc_chrome.Sender.{Sender, new_sender, min_pacing_rate}
use gcc_chrome.Sender.Told.{heard_limit}
use gcc_chrome.Receiver.{Receiver, new_receiver}
use gcc_chrome.Session.{
  Session, Event, sends, sender_receives, receiver_receives, loses_data, overtakes, overtake,
  new_session, run,
}
use gcc_chrome.Session.Steps.{IsHeard}
use gcc_chrome.Session.Safety.{session_runs}

overtaken_first :
    overtake 2 ((1 ∷ []) ∷ (2 ∷ []) ∷ (3 ∷ []) ∷ []) ≡ (3 ∷ []) ∷ (1 ∷ []) ∷ (2 ∷ []) ∷ []
unfolding overtake
overtaken_first = refl

abbrev config : Config Fixed
config = record {
  constraints = record {
    at_time = seconds 1;
    min_data_rate = none;
    max_data_rate = none;
    starting_rate = some (pos 400_000);
  };
  pacing_factor = none;
  min_total_allocated_bitrate = none;
  max_padding_rate = none;
}

abbrev events : List Event
events =
    sends 1_000 1_001 1_002
    ∷ sends 30_000 30_000 30_001
    ∷ receiver_receives 31_000 31_001
    ∷ sends 60_000 60_000 60_002
    ∷ loses_data 0
    ∷ receiver_receives 990_000 990_001
    ∷ overtakes 1
    ∷ sender_receives 1_000_000
    ∷ sender_receives 1_000_500
    ∷ []

session_runs_example :
    (sender : Sender Fixed) × (new_sender config ≡ some sender)
    × (receiver : Receiver Fixed) × (new_receiver config false false ≡ some receiver)
    × (s : Session Fixed) × (run (new_session sender receiver) events ≡ ok s)
    × (told : DataRate) × IsHeard s.told told
    × (s.sender.bandwidth_estimation.receiver_limit ≡ heard_limit told)
    × (min_pacing_rate ≤ s.sender.pacing_rate)
    × (s.sender.pacing_rate ≤ max (to_u64 (heard_limit told)) min_pacing_rate)
session_runs_example =
    session_runs Fixed config config false false (pos 400_000) (pos 400_000) events refl refl
      (ground arith)
