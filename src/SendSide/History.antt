-- ===== src/SendSide/History.antt =====
-- The history of the target rate is a sliding window: its front is the smallest rate that was
-- pushed and is not old yet.
use gcc_chrome.Common.{◌≤◌, ◌≡◌, ◌⊎◌, inl, inr, true, false, List, [], ◌∷◌, arith, Bool-cases}
use gcc_chrome.Common.Int.{pos_part, ◌≤ℤ◌, ◌<ℤ◌}
use gcc_chrome.Common.Lists.{All}
use gcc_chrome.Unit.{Timestamp, DataRate, add, sub}
use gcc_chrome.Unit.Exact.{IsClock}
use gcc_chrome.SendSide.Estimate.{Entry, is_old, pop_old}

abbrev pub time : Entry → Timestamp
time e = e.0

abbrev pub rate : Entry → DataRate
rate e = e.1

abbrev pub Any : (Entry → Type 0) → List Entry → Type 0
Any P [] = ⊥
Any P (x ∷ xs) = P x ⊎ Any P xs

-- Clock times, in order, up to `now`.
abbrev pub IsOrdered : Timestamp → List Entry → Timestamp → Type 0
IsOrdered from [] now = pos_part from ≤ pos_part now
IsOrdered from (e ∷ es) now =
    IsClock (time e) × (pos_part from ≤ pos_part (time e)) × IsOrdered (time e) es now

-- An entry stands for another one: it is not older, and its rate is not higher.
abbrev pub StandsFor : Entry → Entry → Type 0
StandsFor x y = (pos_part (time x) ≤ pos_part (time y)) × (rate y ≤ℤ rate x)

-- Rates that grow from the front to the back.
abbrev pub IsRising : List Entry → Type 0
IsRising [] = Unit
IsRising (x ∷ es) = All (λ y. rate x <ℤ rate y) es × IsRising es

pub is_old_mono :
    (now x y : Timestamp)
    → IsClock now
    → IsClock x
    → IsClock y
    → pos_part x ≤ pos_part y
    → pos_part y ≤ pos_part now
    → is_old now x ≡ false
    → is_old now y ≡ false
unfolding is_old sub add
is_old_mono now x y cn cx cy le le' h = ground arith

pub is_old-before :
    (now x y : Timestamp)
    → IsClock now
    → IsClock x
    → IsClock y
    → pos_part x ≤ pos_part y
    → pos_part y ≤ pos_part now
    → is_old now y ≡ true
    → is_old now x ≡ true
unfolding is_old sub add
is_old-before now x y cn cx cy le le' h = ground arith

pub is_old-later :
    (now later x : Timestamp)
    → IsClock now
    → IsClock later
    → IsClock x
    → pos_part x ≤ pos_part now
    → pos_part now ≤ pos_part later
    → is_old now x ≡ true
    → is_old later x ≡ true
unfolding is_old sub add
is_old-later now later x cn cl cx le le' h = ground arith

abbrev pub Fresh : Timestamp → List Entry → Type 0
Fresh now = All (λ y. is_old now (time y) ≡ false)

-- Dropping old entries from the front.
module _ (now : Timestamp) where
  pub IsOrdered-later :
      (from later : Timestamp) (es : List Entry)
      → IsOrdered from es now
      → pos_part now ≤ pos_part later
      → IsOrdered from es later
  IsOrdered-later from later [] o le = omega arith
  IsOrdered-later from later (e ∷ es) (c, f, o) le = (c, f, IsOrdered-later (time e) later es o le)

  pub IsOrdered-from :
      (from before : Timestamp) (es : List Entry)
      → IsOrdered from es now
      → pos_part before ≤ pos_part from
      → IsOrdered before es now
  IsOrdered-from from before [] o le = omega arith
  IsOrdered-from from before (e ∷ es) (c, f, o) le = (c, omega arith, o)

  pub IsOrdered-le :
      (from : Timestamp) (es : List Entry) → IsOrdered from es now → pos_part from ≤ pos_part now
  IsOrdered-le from [] o = o
  IsOrdered-le from (e ∷ es) (c, f, o) = omega (arith, IsOrdered-le (time e) es o)

  pub pop_old-IsOrdered :
      (from : Timestamp) (es : List Entry)
      → IsOrdered from es now
      → IsOrdered from (pop_old now es) now
  unfolding pop_old
  pop_old-IsOrdered from [] o = o
  pop_old-IsOrdered from (e ∷ es) (c, f, o) = elim (Bool-cases (is_old now (time e))) [
    | inl old ↦ rw old (pop_old-IsOrdered from es (IsOrdered-from (time e) from es o f))
    | inr young ↦ rw young (c, f, o)
  ]

  Fresh-after :
      (t : Timestamp) (xs : List Entry)
      → IsClock now
      → IsClock t
      → is_old now t ≡ false
      → IsOrdered t xs now
      → Fresh now xs
  Fresh-after t [] cn ct young o = tt
  Fresh-after t (e ∷ es) cn ct young (c, f, o) =
      let young' = is_old_mono now t (time e) cn ct c f (IsOrdered-le (time e) es o) young in
      (young', Fresh-after (time e) es cn c young' o)

  pub pop_old-Fresh :
      (from : Timestamp) (es : List Entry)
      → IsClock now
      → IsOrdered from es now
      → Fresh now (pop_old now es)
  unfolding pop_old
  pop_old-Fresh from [] cn o = tt
  pop_old-Fresh from (e ∷ es) cn (c, f, o) = elim (Bool-cases (is_old now (time e))) [
    | inl old ↦ rw old (pop_old-Fresh (time e) es cn o)
    | inr young ↦ rw young (young, Fresh-after (time e) es cn c young o)
  ]

  pub pop_old-All : (P : Entry → Type 0) (es : List Entry) → All P es → All P (pop_old now es)
  unfolding pop_old
  pop_old-All P [] a = tt
  pop_old-All P (e ∷ es) (p, ps) = elim (Bool-cases (is_old now (time e))) [
    | inl old ↦ rw old (pop_old-All P es ps)
    | inr young ↦ rw young (p, ps)
  ]

  pub pop_old-IsRising : (es : List Entry) → IsRising es → IsRising (pop_old now es)
  unfolding pop_old
  pop_old-IsRising [] r = tt
  pop_old-IsRising (e ∷ es) (r, rs) = elim (Bool-cases (is_old now (time e))) [
    | inl old ↦ rw old (pop_old-IsRising es rs)
    | inr young ↦ rw young (r, rs)
  ]

  pub pop_old-stands :
      (x : Entry) (from : Timestamp) (es : List Entry)
      → IsClock now
      → IsClock (time x)
      → IsOrdered from es now
      → Any (StandsFor x) es
      → (is_old now (time x) ≡ true) ⊎ Any (StandsFor x) (pop_old now es)
  unfolding pop_old
  pop_old-stands x from [] cn cx o a = elim a [ ]
  pop_old-stands x from (e ∷ es) cn cx (c, f, o) a = elim (Bool-cases (is_old now (time e))) [
    | inl old ↦ rw old elim a [
      | inl stands ↦
          inl
            (is_old-before now (time x) (time e) cn cx c stands.0 (IsOrdered-le (time e) es o) old)
      | inr rest ↦ pop_old-stands x (time e) es cn cx o rest
    ]
    | inr young ↦ rw young (inr a)
  ]
