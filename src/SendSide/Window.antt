-- ===== src/SendSide/Window.antt =====
-- The history as a sliding-window minimum: what `min_bitrate_history_.front()` is after any calls of
-- `UpdateMinHistory`.
use mathlib.Core.List.{append-nil, append_assoc}
use mathlib.Core.Path.{subst}
use gcc_chrome.Common.{
  ◌≤◌, ◌≡◌, refl, ap, sym, ◌∙◌, ◌⊎◌, inl, inr, true, false, List, [], ◌∷◌, ◌++◌, arith,
}
use gcc_chrome.Common.Int.{pos, pos_part, ◌≤ℤ◌, ◌<ℤ◌}
use gcc_chrome.Common.Lists.{All}
use gcc_chrome.Unit.{Timestamp, DataRate}
use gcc_chrome.Unit.Exact.{IsClock}
use gcc_chrome.SendSide.Estimate.{Entry, is_old, update_min_history, pop_old, pop_high, front_rate}
use gcc_chrome.SendSide.History.{time, rate, Any, IsOrdered, StandsFor, IsRising}
use gcc_chrome.SendSide.Minimum.{Tracks, All-map, Any-map, update_min_history-Tracks}

-- The calls of `UpdateMinHistory` for a list of times and targets.
pub remember : List Entry → List Entry → List Entry
remember history [] = history
remember history (e ∷ es) = remember (update_min_history history (rate e) (time e)) es

abbrev Remembers : List Entry → List Entry → Timestamp → Type 0
Remembers pushed history now =
    (last : Timestamp) × IsClock last × (pos_part last ≤ pos_part now) × Tracks pushed history last

remember-Remembers :
    (pushed history es : List Entry) (t now : Timestamp)
    → Tracks pushed history t
    → IsClock t
    → IsOrdered t es now
    → Remembers (pushed ++ es) (remember history es) now
unfolding remember
remember-Remembers pushed history [] t now tracks c o =
    (t, c, o, subst (λ l. Tracks l history t) (sym (append-nil pushed)) tracks)
remember-Remembers pushed history (e ∷ es) t now tracks c (ce, f, o) =
    subst (λ l. Remembers l (remember history (e ∷ es)) now) (append_assoc pushed (e ∷ []) es)
      (remember-Remembers (pushed ++ e ∷ []) _ es (time e) now
        (update_min_history-Tracks pushed history t (time e) (rate e) tracks c ce f) ce o)

below :
    (e x : Entry) (ys : List Entry)
    → All (λ y. rate e <ℤ rate y) ys
    → Any (StandsFor x) ys
    → rate e ≤ℤ rate x
below e x [] b a = elim a [ ]
below e x (y ∷ ys) (b, bs) (inl s) = omega arith
below e x (y ∷ ys) (b, bs) (inr a) = below e x ys bs a

front-min :
    (d : DataRate) (history : List Entry) (x : Entry)
    → IsRising history
    → Any (StandsFor x) history
    → front_rate d history ≤ℤ rate x
unfolding front_rate
front-min d [] x r a = elim a [ ]
front-min d (e ∷ es) x r (inl s) = s.1
front-min d (e ∷ es) x (r, rs) (inr a) = below e x es r a

-- The first of a list that ends with some entry has what all of its entries have.
front-All :
    (P : Entry → Type 0) (d : DataRate) (es : List Entry) (last : Entry)
    → All P (es ++ last ∷ [])
    → (y : Entry) × P y × (front_rate d (es ++ last ∷ []) ≡ rate y)
unfolding front_rate
front-All P d [] last (p, ps) = (last, p, refl)
front-All P d (e ∷ es) last (p, ps) = (e, p, refl)

front-new :
    (P : Entry → Type 0) (d current : DataRate) (history : List Entry) (now : Timestamp)
    → All P (update_min_history history current now)
    → (y : Entry) × P y × (front_rate d (update_min_history history current now) ≡ rate y)
unfolding update_min_history
front-new P d current history now =
    front-All P d (pop_high current (pop_old now history)) (now, current)

All-both : (P Q : Entry → Type 0) (es : List Entry) → All P es → All Q es → All (λ e. P e × Q e) es
All-both P Q [] p q = tt
All-both P Q (e ∷ es) (p, ps) (q, qs) = ((p, q), All-both P Q es ps qs)

nothing-Tracks : Tracks [] [] (pos 0)
nothing-Tracks = record { ordered = omega arith; rising = tt; covers = tt; kept = tt; young = tt }

pub front-is-minimum :
    (samples : List Entry) (now : Timestamp) (current : DataRate)
    → IsClock now
    → IsOrdered (pos 0) samples now
    → let pushed = samples ++ (now, current) ∷ [] in
      let front = front_rate current (update_min_history (remember [] samples) current now) in
      All (λ e. (is_old now (time e) ≡ true) ⊎ (front ≤ℤ rate e)) pushed
      × Any (λ e. (is_old now (time e) ≡ false) × (front ≡ rate e)) pushed
front-is-minimum samples now current c o =
    let (last, cl, le, tracks) =
      remember-Remembers [] [] samples (pos 0) now nothing-Tracks (omega arith) o in
    let after =
      update_min_history-Tracks samples (remember [] samples) last now current tracks cl c le in
    let (y, (member, young), e) =
      front-new _ current current (remember [] samples) now
        (All-both _ _ _ after.kept after.young) in
    (
      All-map
          (λ x h. elim h.2 [
            | inl old ↦ inl old
            | inr a ↦ inr (front-min current _ x after.rising a)
          ])
          _ after.covers,
      Any-map
          (λ x same. (subst (λ z. is_old now (time z) ≡ false) same young, e ∙ ap (λ z. z.1) same))
          _ member,
    )
