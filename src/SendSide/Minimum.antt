-- ===== src/SendSide/Minimum.antt =====
-- The front of the history is the minimum of the rates of the last second.
use gcc_chrome.Common.{◌≤◌, ◌≡◌, refl, ◌⊎◌, inl, inr, true, false, List, [], ◌∷◌, ◌++◌, arith}
use gcc_chrome.Common.Int.{pos, pos_part, ◌≤ℤ◌, ◌<ℤ◌}
use gcc_chrome.Common.Lists.{All, All-append}
use gcc_chrome.Unit.{Timestamp, DataRate, add, sub}
use gcc_chrome.Unit.Exact.{IsClock}
use gcc_chrome.SendSide.Estimate.{Entry, is_old, pop_old, pop_high, update_min_history}
use gcc_chrome.SendSide.History.{
  time, rate, Any, IsOrdered, StandsFor, IsRising, Fresh, is_old-later, IsOrdered-later,
  IsOrdered-le, pop_old-IsOrdered, pop_old-Fresh, pop_old-All, pop_old-IsRising, pop_old-stands,
}

module _ (current : DataRate) where
  pop_high-All : (P : Entry → Type 0) (es : List Entry) → All P es → All P (pop_high current es)
  unfolding pop_high
  pop_high-All P [] a = tt
  pop_high-All P (e ∷ es) (p, ps) = ground (arith, pop_high-All P es ps)

  pop_high-IsRising : (es : List Entry) → IsRising es → IsRising (pop_high current es)
  unfolding pop_high
  pop_high-IsRising [] r = tt
  pop_high-IsRising (e ∷ es) (r, rs) =
      ground (arith, pop_high-IsRising es rs, pop_high-All (λ y. rate e <ℤ rate y) es r)

  pop_high-IsOrdered :
      (now from : Timestamp) (es : List Entry)
      → IsOrdered from es now
      → IsOrdered from (pop_high current es) now
  unfolding pop_high
  pop_high-IsOrdered now from [] o = o
  pop_high-IsOrdered now from (e ∷ es) (c, f, o) =
      ground (arith, pop_high-IsOrdered now (time e) es o, IsOrdered-le now (time e) es o)

  -- What is left is below the current rate.
  pop_high-below :
      (es : List Entry) → IsRising es → All (λ y. rate y <ℤ current) (pop_high current es)
  unfolding pop_high
  pop_high-below [] r = tt
  pop_high-below (e ∷ es) (r, rs) =
      ground (arith, pop_high-below es rs, pop_high-All (λ y. rate e <ℤ rate y) es r)

  pop_high-stands :
      (x : Entry) (es : List Entry)
      → Any (StandsFor x) es
      → (current ≤ℤ rate x) ⊎ Any (StandsFor x) (pop_high current es)
  unfolding pop_high
  pop_high-stands x [] a = elim a [ ]
  pop_high-stands x (e ∷ es) (inl s) = ground arith
  pop_high-stands x (e ∷ es) (inr a) = ground (arith, pop_high-stands x es a)

pub All-map :
    {P Q : Entry → Type 0} (f : (e : Entry) → P e → Q e) (es : List Entry) → All P es → All Q es
All-map f [] a = tt
All-map f (e ∷ es) (p, ps) = (f e p, All-map f es ps)

pub Any-map :
    {P Q : Entry → Type 0} (f : (e : Entry) → P e → Q e) (es : List Entry) → Any P es → Any Q es
Any-map f [] a = elim a [ ]
Any-map f (e ∷ es) (inl p) = inl (f e p)
Any-map f (e ∷ es) (inr a) = inr (Any-map f es a)

Any-append : (P : Entry → Type 0) (xs ys : List Entry) → Any P xs → Any P (xs ++ ys)
Any-append P [] ys a = elim a [ ]
Any-append P (x ∷ xs) ys (inl p) = inl p
Any-append P (x ∷ xs) ys (inr a) = inr (Any-append P xs ys a)

Any-last : (P : Entry → Type 0) (xs : List Entry) (e : Entry) → P e → Any P (xs ++ e ∷ [])
Any-last P [] e p = inl p
Any-last P (x ∷ xs) e p = inr (Any-last P xs e p)

module _ (now : Timestamp) (current : DataRate) where
  IsOrdered-snoc :
      (from : Timestamp) (es : List Entry)
      → IsClock now
      → IsOrdered from es now
      → IsOrdered from (es ++ (now, current) ∷ []) now
  IsOrdered-snoc from [] c o = omega arith
  IsOrdered-snoc from (e ∷ es) c (ce, f, o) = (ce, f, IsOrdered-snoc (time e) es c o)

  IsRising-snoc :
      (es : List Entry)
      → IsRising es
      → All (λ y. rate y <ℤ current) es
      → IsRising (es ++ (now, current) ∷ [])
  IsRising-snoc [] r b = (tt, tt)
  IsRising-snoc (e ∷ es) (r, rs) (b, bs) = (
    All-append (λ y. rate e <ℤ rate y) es ((now, current) ∷ []) r (b, tt),
    IsRising-snoc es rs bs,
  )

-- What the history keeps of all the entries that were pushed up to `now`.
pub record Tracks (pushed history : List Entry) (now : Timestamp) : Type 0 where
  pub ordered : IsOrdered (pos 0) history now
  pub rising : IsRising history
  pub covers :
      All
        (λ x.
          IsClock (time x)
          × (pos_part (time x) ≤ pos_part now)
          × ((is_old now (time x) ≡ true) ⊎ Any (StandsFor x) history))
        pushed
  pub kept : All (λ y. Any (λ x. y ≡ x) pushed) history
  pub young : Fresh now history

is_old_self : (now : Timestamp) → IsClock now → is_old now now ≡ false
unfolding is_old sub add
is_old_self now c = ground arith

module _ (pushed history : List Entry) (before now : Timestamp) (current : DataRate)
    (tracks : Tracks pushed history before) (cb : IsClock before) (c : IsClock now)
    (later : pos_part before ≤ pos_part now) where
  abbrev pub new : Entry
  new = (now, current)

  abbrev left : List Entry
  left = pop_high current (pop_old now history)

  still-IsOrdered : IsOrdered (pos 0) history now
  still-IsOrdered = IsOrdered-later before (pos 0) now history tracks.ordered later

  left-IsRising : IsRising left
  left-IsRising = pop_high-IsRising current _ (pop_old-IsRising now history tracks.rising)

  covers_one :
      (x : Entry)
      → IsClock (time x)
        × (pos_part (time x) ≤ pos_part before)
        × ((is_old before (time x) ≡ true) ⊎ Any (StandsFor x) history)
      → IsClock (time x)
        × (pos_part (time x) ≤ pos_part now)
        × ((is_old now (time x) ≡ true) ⊎ Any (StandsFor x) (left ++ new ∷ []))
  covers_one x (cx, le, inl old) =
      (cx, omega arith, inl (is_old-later before now (time x) cb c cx le later old))
  covers_one x (cx, le, inr stands) = (
    cx,
    omega arith,
    elim (pop_old-stands now x (pos 0) history c cx still-IsOrdered stands) [
      | inl old ↦ inl old
      | inr rest ↦ inr (elim (pop_high-stands current x (pop_old now history) rest) [
        | inl high ↦ Any-last (StandsFor x) left new (omega arith, high)
        | inr kept ↦ Any-append (StandsFor x) left (new ∷ []) kept
      ])
    ],
  )

  pub update_min_history-Tracks :
      Tracks (pushed ++ new ∷ []) (update_min_history history current now) now
  unfolding update_min_history
  update_min_history-Tracks = record {
    ordered = IsOrdered-snoc now current (pos 0) left c (
        pop_high-IsOrdered current now (pos 0) _
          (pop_old-IsOrdered now (pos 0) history still-IsOrdered));
    rising =
        IsRising-snoc now current left left-IsRising
          (pop_high-below current _ (pop_old-IsRising now history tracks.rising));
    covers =
        All-append _ pushed (new ∷ []) (All-map covers_one pushed tracks.covers) (
          (c, omega arith, inr (Any-last (StandsFor new) left new (omega arith, omega arith))),
          tt,
        );
    kept =
        All-append _ left (new ∷ [])
          (All-map (λ y a. Any-append (λ x. y ≡ x) pushed (new ∷ []) a) left
            (pop_high-All current _ _ (pop_old-All now _ history tracks.kept)))
          (Any-last (λ x. new ≡ x) pushed new refl, tt);
    young =
        All-append _ left (new ∷ [])
          (pop_high-All current _ _ (pop_old-Fresh now (pos 0) history c still-IsOrdered))
          (is_old_self now c, tt);
  }
