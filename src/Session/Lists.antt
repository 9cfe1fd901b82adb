-- ===== src/Session/Lists.antt =====
-- What stays true of the texts on their way when some are lost, added or overtaken.
use gcc_chrome.Common.{ℕ, zero, suc, ◌≤◌, ◌<◌, ◌≡◌, refl, ◌⊎◌, inl, inr, List, [], ◌∷◌, ◌++◌, arith}
use mathlib.Core.List.{Mem, mem-append_left, mem-append_right, mem-cons_self, mem-cons_of_mem}
use gcc_chrome.Common.Lists.{All}
use gcc_chrome.Unit.{DataRate}
use gcc_chrome.Packet.{Text, DataPacket, serialize_data, serialize_remb}
use gcc_chrome.Packet.RoundTrip.{FitsNumber, FitsTime}
use gcc_chrome.Receiver.Messages.{IsLossReport, Messages}
use gcc_chrome.Session.{others, lose, overtake}

-- Data packets whose numbers grow from above `n` up to `m`, and which fit their fields.
abbrev pub InFlight : ℕ → List Text → ℕ → Type 0
InFlight n [] m = n ≤ m
InFlight n (t ∷ ts) m =
    (p : DataPacket) × (t ≡ serialize_data p)
    × (n < p.sequence_number)
    × FitsTime p.send_time
    × FitsNumber p.size
    × InFlight p.sequence_number ts m

pub InFlight-le : (n : ℕ) (ts : List Text) (m : ℕ) → InFlight n ts m → n ≤ m
InFlight-le n [] m h = h
InFlight-le n (t ∷ ts) m (p, _, less, _, _, h) =
    omega (arith, less, InFlight-le p.sequence_number ts m h)

InFlight-weaken : (n n' : ℕ) (ts : List Text) (m : ℕ) → n ≤ n' → InFlight n' ts m → InFlight n ts m
InFlight-weaken n n' [] m le h = omega (arith, le, h)
InFlight-weaken n n' (t ∷ ts) m le (p, e, less, time, size, h) =
    (p, e, omega (arith, le, less), time, size, h)

pub lose-InFlight : (k n : ℕ) (ts : List Text) (m : ℕ) → InFlight n ts m → InFlight n (lose k ts) m
unfolding lose
lose-InFlight k n [] m h = h
lose-InFlight zero n (t ∷ ts) m (p, _, less, _, _, h) =
    InFlight-weaken n p.sequence_number ts m (omega (arith, less)) h
lose-InFlight (suc k) n (t ∷ ts) m (p, e, less, time, size, h) =
    (p, e, less, time, size, lose-InFlight k p.sequence_number ts m h)

-- A newer packet is added.
pub InFlight-snoc :
    (n : ℕ) (ts : List Text) (m : ℕ) (q : DataPacket)
    → InFlight n ts m
    → m < q.sequence_number
    → FitsTime q.send_time
    → FitsNumber q.size
    → InFlight n (ts ++ serialize_data q ∷ []) q.sequence_number
InFlight-snoc n [] m q h newer time size =
    (q, refl, omega (arith, h, newer), time, size, omega arith)
InFlight-snoc n (t ∷ ts) m q (p, e, less, time', size', h) newer time size =
    (p, e, less, time', size', InFlight-snoc p.sequence_number ts m q h newer time size)

pub others-All : (P : Text → Type 0) (ts : List Text) → All P ts → All P (others ts)
others-All P [] h = h
others-All P (t ∷ ts) (_, h) = h

pub lose-All : (P : Text → Type 0) (k : ℕ) (ts : List Text) → All P ts → All P (lose k ts)
unfolding lose
lose-All P k [] h = h
lose-All P zero (t ∷ ts) (_, h) = h
lose-All P (suc k) (t ∷ ts) (p, h) = (p, lose-All P k ts h)

overtaken :
    (P : Text → Type 0) (t : Text) (us : List Text)
    → P t
    → All P us
    → All P (elim us [ [] ↦ t ∷ [] | u ∷ us ↦ u ∷ t ∷ us ])
overtaken P t [] p h = (p, tt)
overtaken P t (u ∷ us) p (q, h) = (q, (p, h))

pub overtake-All : (P : Text → Type 0) (k : ℕ) (ts : List Text) → All P ts → All P (overtake k ts)
unfolding overtake
overtake-All P k [] h = h
overtake-All P zero (t ∷ ts) h = h
overtake-All P (suc k) (t ∷ ts) (p, h) = overtaken P t (overtake k ts) p (overtake-All P k ts h)

-- A loss report, or a bit rate.
abbrev pub IsReport : Text → Type 0
IsReport t =
    IsLossReport t ⊎ ((rate : DataRate) × (t ≡ serialize_remb (record { bandwidth = rate })))

Messages-All : (a b : DataRate) (ts : List Text) → Messages a ts b → All IsReport ts
Messages-All a b [] m = tt
Messages-All a b (t ∷ ts) (inl (p, m)) = (inl p, Messages-All a b ts m)
Messages-All a b (t ∷ ts) (inr (rate, e, m)) = (inr (rate, e), Messages-All rate b ts m)

-- A report that the receiver has sent.
abbrev pub IsTold : List Text → Text → Type 0
IsTold told t = Mem t told × IsReport t

members-IsTold :
    (told ts : List Text)
    → All IsReport ts
    → ((t : Text) → Mem t ts → Mem t told)
    → All (IsTold told) ts
members-IsTold told [] h among = tt
members-IsTold told (t ∷ ts) (p, h) among =
    ((among t mem-cons_self, p), members-IsTold told ts h (λ u m. among u (mem-cons_of_mem t m)))

-- What was told before stays told.
pub later-IsTold :
    (told more ts : List Text) → All (IsTold told) ts → All (IsTold (told ++ more)) ts
later-IsTold told more [] h = tt
later-IsTold told more (t ∷ ts) ((m, p), h) =
    ((mem-append_left more m, p), later-IsTold told more ts h)

-- And so is what the receiver sends now.
pub Messages-IsTold :
    (a b : DataRate) (told ts : List Text) → Messages a ts b → All (IsTold (told ++ ts)) ts
Messages-IsTold a b told ts m =
    members-IsTold (told ++ ts) ts (Messages-All a b ts m) (λ t mem. mem-append_right told mem)
