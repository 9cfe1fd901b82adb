-- ===== src/Acknowledged/Window.antt =====
-- The windows of the bitrate estimator: the first estimate, and the bytes that it covers.
use gcc_chrome.Common.{
  ℕ, ◌+◌, ◌-◌, ◌*◌, ◌^◌, ◌≤◌, ◌<◌, ◌≡◌, ◌∙◌, ap, refl, true, false, none, some, List, [], ◌∷◌,
  arith,
}
use gcc_chrome.Common.Double.{Double}
use gcc_chrome.Common.Int.{pos, negsuc, ◌+ℤ◌, ◌-ℤ◌, int32, int64, ltb_ℤ, leb_ℤ}
use native.Mathlib.Nat.{add-zero, add_assoc}
use gcc_chrome.LinkCapacity.{int_double}
use gcc_chrome.Unit.{Timestamp, timestamp_ms, kilobits_per_sec}
use gcc_chrome.Acknowledged.{
  BitrateEstimator, new_bitrate_estimator, sample_of, advance, update_window, window_of, update,
  bitrate,
}

-- A packet of so many bytes that comes at this millisecond.
pub record Arrival : Type 0 where
  pub ms : ℕ
  pub bytes : ℕ

-- The packets `rest` come in order in the half second from `start` on, after one at `prev`, and `final`
-- comes after that half second and at most half a second after them.
abbrev pub FillsWindow : ℕ → ℕ → List Arrival → Arrival → Type 0
FillsWindow start prev [] final = (start + 500 ≤ final.ms) × (final.ms ≤ prev + 500)
FillsWindow start prev (a ∷ rest) final =
    (prev ≤ a.ms) × (a.ms < start + 500) × FillsWindow start a.ms rest final

abbrev pub total_bytes : List Arrival → ℕ
total_bytes [] = 0
total_bytes (a ∷ rest) = a.bytes + total_bytes rest

FillsWindow-end :
    (start prev : ℕ) (rest : List Arrival) (final : Arrival)
    → FillsWindow start prev rest final
    → start + 500 ≤ final.ms
FillsWindow-end start prev [] final h = h.0
FillsWindow-end start prev (a ∷ rest) final h = FillsWindow-end start a.ms rest final h.2

abbrev pub time_of : ℕ → Timestamp
time_of ms = pos (ms * 1000)

timestamp_ms_lem : (ms : ℕ) → ms < 2 ^ 50 → timestamp_ms (time_of ms) ≡ pos ms
unfolding timestamp_ms
timestamp_ms_lem ms h = ground arith

int64_sub : (a b : ℕ) → b ≤ a → a < 2 ^ 50 → int64 (pos a -ℤ pos b) ≡ pos (a - b)
unfolding ◌-ℤ◌ int64
int64_sub a b h small = ground arith

int64_add : (a b : ℕ) → a + b < 2 ^ 60 → int64 (pos a +ℤ pos b) ≡ pos (a + b)
unfolding ◌+ℤ◌ int64
int64_add a b h = ground arith

int32_small : (a : ℕ) → a < 2 ^ 31 → int32 (pos a) ≡ pos a
unfolding int32
int32_small a h = ground arith

int32_add : (a b : ℕ) → a + b < 2 ^ 31 → int32 (pos a +ℤ pos b) ≡ pos (a + b)
unfolding ◌+ℤ◌ int32
int32_add a b h = ground arith

module _ {ℓ} {F : Type ℓ} ⦃fl : Double F⦄ where
  advance-within :
      (s : BitrateEstimator F) (prev now c w : ℕ)
      → s.prev_time_ms ≡ pos prev
      → s.current_window_ms ≡ pos c
      → prev ≤ now
      → now < 2 ^ 50
      → c ≤ 1000
      → now ≤ prev + w
      → advance s (pos now) w
        ≡ record s { prev_time_ms = pos now; current_window_ms = pos (c + (now - prev)) }
  unfolding advance
  advance-within s prev now c w e e' h small small' near =
      let before : ltb_ℤ (pos now) s.prev_time_ms ≡ false = rw e (ground arith) in
      let passed : leb_ℤ (pos 0) s.prev_time_ms ≡ true = rw e (ground arith) in
      let since : int64 (pos now -ℤ s.prev_time_ms) ≡ pos (now - prev) =
        rw e (int64_sub now prev h small) in
      let d : ltb_ℤ (pos w) (pos (now - prev)) ≡ false = ground arith in
      let f : int64 (pos c +ℤ pos (now - prev)) ≡ pos (c + (now - prev)) =
        int64_add c (now - prev) (omega arith) in
      simp (before, since, passed, d, f, e', advance)

  -- Before the first estimate: what the window holds since the first packet.
  pub record IsWaiting (s : BitrateEstimator F) (start now bytes : ℕ) : Type ℓ where
    pub seen : s.prev_time_ms ≡ pos now
    pub span : s.current_window_ms ≡ pos (now - start)
    pub counted : s.sum ≡ pos bytes
    pub early : fl.lt s.bitrate_estimate_kbps (int_double 0) ≡ true
    pub first : s.initial_window_ms ≡ 500
    pub ordered : start ≤ now
    pub short : now < start + 500

  module _ (s : BitrateEstimator F) (start prev now n bytes : ℕ)
      (w : IsWaiting s start prev n) where
    first_window : window_of s ≡ 500
    unfolding window_of
    first_window = ground arith

    advance-waiting :
        prev ≤ now
        → now < 2 ^ 50
        → now ≤ prev + 500
        → advance s (pos now) 500
          ≡ record s { prev_time_ms = pos now; current_window_ms = pos (now - start) }
    advance-waiting h small near =
        advance-within s prev now (prev - start) 500 w.seen w.span h small (omega arith) near
        ∙ ap (λ (c : ℕ). record s { prev_time_ms = pos now; current_window_ms = pos c })
            (omega arith)

    -- A packet in the first half second joins the window.
    update-IsWaiting :
        fl.lt (fl.of_int (negsuc 0)) (int_double 0) ≡ true
        → prev ≤ now
        → now < start + 500
        → now < 2 ^ 50
        → n + bytes < 2 ^ 31
        → IsWaiting (update s (time_of now) (pos bytes)) start now (n + bytes)
    unfolding update update_window
    update-IsWaiting minus h short small fits =
        let time : timestamp_ms (time_of now) ≡ pos now = timestamp_ms_lem now small in
        let amount : int32 (pos bytes) ≡ pos bytes = int32_small bytes (omega arith) in
        let moved = advance-waiting h small (omega arith) in
        let under : leb_ℤ (pos 500) (pos (now - start)) ≡ false = ground arith in
        let joined : int32 (s.sum +ℤ pos bytes) ≡ pos (n + bytes) =
          rw w.counted (int32_add n bytes fits) in
        let same : update s (time_of now) (pos bytes) ≡ record s {
          prev_time_ms = pos now;
          current_window_ms = pos (now - start);
          sum = pos (n + bytes);
        } =
          simp (time, amount, first_window, moved, under, joined, minus, update, update_window) in
        rw same (record {
          seen = refl;
          span = refl;
          counted = refl;
          early = w.early;
          first = w.first;
          ordered = omega arith;
          short = short;
        })

    -- The packet that ends the first half second sets the estimate.
    update-first :
        fl.lt (sample_of (pos n) 500) (int_double 0) ≡ false
        → start + 500 ≤ now
        → now ≤ prev + 500
        → now < 2 ^ 50
        → bytes < 2 ^ 31
        → let r = update s (time_of now) (pos bytes) in
          (r.bitrate_estimate_kbps ≡ sample_of (pos n) 500) × (r.sum ≡ pos bytes)
    unfolding update update_window
    update-first positive h near small fits =
        let time : timestamp_ms (time_of now) ≡ pos now = timestamp_ms_lem now small in
        let amount : int32 (pos bytes) ≡ pos bytes = int32_small bytes (omega arith) in
        let moved = advance-waiting (omega arith) small near in
        let over : leb_ℤ (pos 500) (pos (now - start)) ≡ true = ground arith in
        let alone : int32 (pos 0 +ℤ pos bytes) ≡ pos bytes =
          int32_add 0 bytes (omega arith) ∙ ap pos (omega arith) in
        let held : s.sum ≡ pos n = w.counted in
        let early : fl.lt s.bitrate_estimate_kbps (int_double 0) ≡ true = w.early in
        (
          simp (
            time, amount, first_window, moved, over, held, positive, early, update, update_window,
          ),
          simp (
            time, amount, first_window, moved, over, held, positive, early, alone, update,
            update_window,
          ),
        )

  -- The first packet of all.
  update-fresh :
      (s : BitrateEstimator F) (a : Arrival)
      → fl.lt (fl.of_int (negsuc 0)) (int_double 0) ≡ true
      → s.prev_time_ms ≡ negsuc 0
      → s.current_window_ms ≡ pos 0
      → s.sum ≡ pos 0
      → s.bitrate_estimate_kbps ≡ fl.of_int (negsuc 0)
      → s.initial_window_ms ≡ 500
      → a.ms < 2 ^ 50
      → a.bytes < 2 ^ 31
      → IsWaiting (update s (time_of a.ms) (pos a.bytes)) a.ms a.ms a.bytes
  unfolding update update_window advance window_of
  update-fresh s a minus unseen empty none_yet estimate width small fits =
      let time : timestamp_ms (time_of a.ms) ≡ pos a.ms = timestamp_ms_lem a.ms small in
      let amount : int32 (pos a.bytes) ≡ pos a.bytes = int32_small a.bytes fits in
      let before : ltb_ℤ (pos a.ms) (negsuc 0) ≡ false = ground arith in
      let joined : int32 (pos 0 +ℤ pos a.bytes) ≡ pos a.bytes =
        int32_add 0 a.bytes (omega arith) ∙ ap pos (omega arith) in
      let same : update s (time_of a.ms) (pos a.bytes)
          ≡ record s { prev_time_ms = pos a.ms; sum = pos a.bytes } =
        simp (
          time, amount, unseen, empty, none_yet, estimate, width, before, joined, minus, update,
          update_window, advance, window_of,
        ) in
      rw same (record {
        seen = refl;
        span = empty ∙ ap pos (omega arith);
        counted = refl;
        early = rw estimate minus;
        first = width;
        ordered = omega arith;
        short = omega arith;
      })

  bitrate-none :
      (s : BitrateEstimator F)
      → fl.lt s.bitrate_estimate_kbps (int_double 0) ≡ true
      → bitrate s ≡ none
  unfolding bitrate
  bitrate-none s h = simp (h, bitrate)

  bitrate-some :
      (s : BitrateEstimator F) (sample : F)
      → s.bitrate_estimate_kbps ≡ sample
      → fl.lt sample (int_double 0) ≡ false
      → bitrate s ≡ some (kilobits_per_sec sample)
  unfolding bitrate
  bitrate-some s sample e h = simp (e, h, bitrate)

  unfoldable pub run : BitrateEstimator F → List Arrival → BitrateEstimator F
  run s [] = s
  run s (a ∷ rest) = run (update s (time_of a.ms) (pos a.bytes)) rest

  run-IsWaiting :
      (s : BitrateEstimator F) (start prev n : ℕ) (rest : List Arrival) (final : Arrival)
      → fl.lt (fl.of_int (negsuc 0)) (int_double 0) ≡ true
      → IsWaiting s start prev n
      → FillsWindow start prev rest final
      → final.ms < 2 ^ 50
      → n + total_bytes rest < 2 ^ 31
      → (last : ℕ) × IsWaiting (run s rest) start last (n + total_bytes rest)
        × (final.ms ≤ last + 500)
  unfolding run
  run-IsWaiting s start prev n [] final minus w fills small fits = (prev, rw add-zero w, fills.1)
  run-IsWaiting s start prev n (a ∷ rest) final minus w fills small fits =
      let ends = FillsWindow-end start a.ms rest final fills.2 in
      let next =
        update-IsWaiting s start prev a.ms n a.bytes w minus fills.0 fills.1 (omega arith)
          (omega arith) in
      let (last, done, near) =
        run-IsWaiting (update s (time_of a.ms) (pos a.bytes)) start a.ms (n + a.bytes) rest final
          minus next fills.2 small (omega arith) in
      (last, rw (← add_assoc) done, near)

module _ {ℓ} (F : Type ℓ) ⦃fl : Double F⦄ where
  -- There is no estimate in the first half second of packets that come in order, and the first packet
  -- after it, no more than half a second behind them, makes the estimate the rate of just the bytes
  -- that came before it, in floats in which -1 is negative and that rate is not.
  pub first_estimate :
      (first : Arrival) (rest : List Arrival) (final : Arrival)
      → fl.lt (fl.of_int (negsuc 0)) (int_double 0) ≡ true
      → fl.lt (sample_of {F = F} (pos (total_bytes (first ∷ rest))) 500) (int_double 0) ≡ false
      → FillsWindow first.ms first.ms rest final
      → final.ms < 2 ^ 50
      → total_bytes (first ∷ rest) < 2 ^ 31
      → final.bytes < 2 ^ 31
      → let waiting = run (new_bitrate_estimator {F = F}) (first ∷ rest) in
        let done = update waiting (time_of final.ms) (pos final.bytes) in
        (bitrate waiting ≡ none)
        × (bitrate done
            ≡ some (kilobits_per_sec (sample_of {F = F} (pos (total_bytes (first ∷ rest))) 500)))
        × (done.sum ≡ pos final.bytes)
  unfolding run new_bitrate_estimator
  first_estimate first rest final minus positive fills small fits fits' =
      let ends = FillsWindow-end first.ms first.ms rest final fills in
      let start =
        update-fresh new_bitrate_estimator first minus refl refl refl refl refl (omega arith)
          (omega arith) in
      let (last, waiting, near) =
        run-IsWaiting _ first.ms first.ms first.bytes rest final minus start fills small fits in
      let (estimate, sum) =
        update-first _ first.ms last final.ms _ final.bytes waiting positive ends near small
          fits' in
      (bitrate-none _ waiting.early, bitrate-some _ _ estimate positive, sum)
