-- ===== src/LossCollection/Window.antt =====
-- The entries of a window: how many there are, and how many are marked.
use gcc_chrome.Common.{
  ℕ, zero, suc, ◌+◌, ◌-◌, ◌<◌, ◌≤◌, ◌≡◌, refl, Bool, true, false, List, [], ◌∷◌, ◌++◌, arith,
}
use gcc_chrome.Common.Int.{ℤ, pos, pos_part}
use gcc_chrome.Common.Lists.{replicate}
use gcc_chrome.Unit.Exact.{IsTime}
use gcc_chrome.NetworkTypes.{PacketResult}
use gcc_chrome.LossCollection.{ReceiveVector, received_count, loss_count, push_newest, is_empty}

pub received_count-append :
    (xs ys : List Bool) → received_count (xs ++ ys) ≡ received_count xs + received_count ys
unfolding received_count
received_count-append [] ys = omega arith
received_count-append (true ∷ xs) ys = omega (arith, received_count-append xs ys)
received_count-append (false ∷ xs) ys = omega (arith, received_count-append xs ys)

pub loss_count-append : (xs ys : List Bool) → loss_count (xs ++ ys) ≡ loss_count xs + loss_count ys
unfolding loss_count
loss_count-append [] ys = omega arith
loss_count-append (true ∷ xs) ys = omega (arith, loss_count-append xs ys)
loss_count-append (false ∷ xs) ys = omega (arith, loss_count-append xs ys)

pub counts-replicate :
    (n : ℕ) → (received_count (replicate n false) ≡ 0) × (loss_count (replicate n false) ≡ n)
unfolding received_count loss_count
counts-replicate zero = (refl, refl)
counts-replicate (suc n) = omega (arith, counts-replicate n)

-- A window in which nothing was received.
pub record IsIdle (v : ReceiveVector) : Type 0 where
  pub empty : v.received_vector ≡ []
  pub no_first_time : v.first_received_time ≡ pos 0
  pub no_largest_time : v.largest_received_time ≡ pos 0
  pub no_largest : v.largest_packet_number ≡ 0

-- A window with an entry for each packet from its first to `n`, the newest, and with its times in
-- order up to `t`.
pub record IsWindow (v : ReceiveVector) (n : ℕ) (t : ℤ) : Type 0 where
  pub filled : is_empty v.received_vector ≡ false
  pub counted :
      received_count v.received_vector + loss_count v.received_vector + v.first_packet_number
      ≡ n + 1
  pub received : 0 < received_count v.received_vector
  pub newest : v.largest_packet_number ≡ n
  pub first_le : v.first_packet_number ≤ n
  pub first_time : IsTime v.first_received_time
  pub largest_time : IsTime v.largest_received_time
  pub times : pos_part v.first_received_time ≤ pos_part v.largest_received_time
  pub until : pos_part v.largest_received_time ≤ pos_part t

pub IsWindow-later :
    (v : ReceiveVector) (n : ℕ) (t t' : ℤ)
    → IsWindow v n t
    → pos_part t ≤ pos_part t'
    → IsWindow v n t'
IsWindow-later v n t t' h le = ground arith

counts-extend :
    (xs : List Bool) (k : ℕ)
    → (received_count ((xs ++ replicate k false) ++ true ∷ []) ≡ received_count xs + 1)
      × (loss_count ((xs ++ replicate k false) ++ true ∷ []) ≡ loss_count xs + k)
unfolding received_count loss_count
counts-extend xs k = omega (
  arith,
  received_count-append (xs ++ replicate k false) (true ∷ []),
  received_count-append xs (replicate k false),
  loss_count-append (xs ++ replicate k false) (true ∷ []),
  loss_count-append xs (replicate k false),
  counts-replicate k,
)

abbrev pub received_in : ReceiveVector → ℕ
received_in v = received_count v.received_vector

-- The first packet of a window.
pub push_newest-IsIdle :
    (v : ReceiveVector) (p : PacketResult)
    → IsIdle v
    → IsTime p.receive_time
    → IsWindow (push_newest v p) p.sent_packet.sequence_number p.receive_time
      × ((push_newest v p).first_received_time ≡ p.receive_time)
      × (received_in (push_newest v p) ≡ 1)
unfolding push_newest received_count loss_count
push_newest-IsIdle v p h time = rw (h.empty, push_newest) (ground arith)

-- A newer packet of the same window.
extend_lem :
    (v : ReceiveVector) (xs : List Bool) (n : ℕ) (t : ℤ) (p : PacketResult)
    → v.received_vector ≡ xs
    → IsWindow v n t
    → n < p.sent_packet.sequence_number
    → IsTime p.receive_time
    → pos_part t ≤ pos_part p.receive_time
    → IsWindow (push_newest v p) p.sent_packet.sequence_number p.receive_time
      × ((push_newest v p).first_received_time ≡ v.first_received_time)
      × ((push_newest v p).wait_duration ≡ v.wait_duration)
      × (received_in (push_newest v p) ≡ received_in v + 1)
unfolding push_newest
extend_lem v [] n t p e h newer time le = ground arith
extend_lem v (b ∷ bs) n t p e h newer time le =
    ground (
      arith,
      counts-extend (b ∷ bs) (p.sent_packet.sequence_number - (v.largest_packet_number + 1)),
    )

pub push_newest-IsWindow :
    (v : ReceiveVector) (n : ℕ) (t : ℤ) (p : PacketResult)
    → IsWindow v n t
    → n < p.sent_packet.sequence_number
    → IsTime p.receive_time
    → pos_part t ≤ pos_part p.receive_time
    → IsWindow (push_newest v p) p.sent_packet.sequence_number p.receive_time
      × ((push_newest v p).first_received_time ≡ v.first_received_time)
      × ((push_newest v p).wait_duration ≡ v.wait_duration)
      × (received_in (push_newest v p) ≡ received_in v + 1)
push_newest-IsWindow v n t p = extend_lem v v.received_vector n t p refl
