-- ===== src/LinkCapacity.antt =====
-- chrome_gcc/src/google_cc/link_capacity_estimator.h and .cc: a smoothed estimate of the capacity.
use gcc_chrome.Common.{ℕ, Bool, true, false, Option, none, some, if◌then◌else◌}
use gcc_chrome.Common.Double.{Double}
use gcc_chrome.Common.Int.{pos}
use gcc_chrome.Unit.{DataRate, plus_infinity, kbps, kilobits_per_sec}

pub record LinkCapacityEstimator {ℓ} (F : Type ℓ) : Type ℓ where
  pub estimate_kbps : Option F
  pub deviation_kbps : F

module _ {ℓ} {F : Type ℓ} where
  unfoldable pub has_estimate : LinkCapacityEstimator F → Bool
  has_estimate l = elim l.estimate_kbps [ none ↦ false | some _ ↦ true ]

  unfoldable pub reset : LinkCapacityEstimator F → LinkCapacityEstimator F
  reset l = record l { estimate_kbps = none }

module _ {ℓ} {F : Type ℓ} ⦃fl : Double F⦄ where
  unfoldable pub new_link_capacity_estimator : LinkCapacityEstimator F
  new_link_capacity_estimator = record {
    estimate_kbps = none;
    deviation_kbps = fl.decimal (pos 4) 1;
  }

  -- std::max of two doubles, and `SafeClamp` of utils.h
  abbrev pub max_double : F → F → F
  max_double a b = if fl.lt a b then b else a

  abbrev pub safe_clamp : F → F → F → F
  safe_clamp value min max =
      let below = if fl.lt max value then max else value in if fl.lt below min then min else below

  abbrev pub int_double : ℕ → F
  int_double n = fl.of_int (pos n)

  unfoldable pub deviation_estimate_kbps : LinkCapacityEstimator F → F → F
  deviation_estimate_kbps l estimate_kbps = fl.sqrt (fl.mul l.deviation_kbps estimate_kbps)

  unfoldable pub upper_bound : LinkCapacityEstimator F → DataRate
  unfolding deviation_estimate_kbps kilobits_per_sec
  upper_bound l = elim l.estimate_kbps [
    | none ↦ plus_infinity
    | some e ↦ kilobits_per_sec (fl.add e (fl.mul (int_double 3) (deviation_estimate_kbps l e)))
  ]

  unfoldable pub lower_bound : LinkCapacityEstimator F → DataRate
  unfolding deviation_estimate_kbps kilobits_per_sec
  lower_bound l = elim l.estimate_kbps [
    | none ↦ pos 0
    | some e ↦
        kilobits_per_sec (
          max_double (int_double 0)
            (fl.sub e (fl.mul (int_double 3) (deviation_estimate_kbps l e))))
  ]

  unfoldable pub smoothed : F → F → F → F
  smoothed alpha old new = fl.add (fl.mul (fl.sub (int_double 1) alpha) old) (fl.mul alpha new)

  -- The limits 0.4f and 2.5f are floats.
  unfoldable pub update : LinkCapacityEstimator F → DataRate → F → LinkCapacityEstimator F
  unfolding smoothed kbps
  update l capacity_sample alpha =
      let sample_kbps = fl.of_int (kbps capacity_sample) in
      let estimate : F = elim l.estimate_kbps [
        | none ↦ sample_kbps
        | some e ↦ smoothed alpha e sample_kbps
      ] in
      let norm = max_double estimate (int_double 1) in
      let error_kbps = fl.sub estimate sample_kbps in
      let deviation =
        fl.add (fl.mul (fl.sub (int_double 1) alpha) l.deviation_kbps)
          (fl.div (fl.mul (fl.mul alpha error_kbps) error_kbps) norm) in
      record {
        estimate_kbps = some estimate;
        deviation_kbps =
            safe_clamp deviation (fl.single (fl.decimal (pos 4) 1))
              (fl.single (fl.decimal (pos 25) 1));
      }

  unfoldable pub on_overuse_detected : LinkCapacityEstimator F → DataRate → LinkCapacityEstimator F
  on_overuse_detected l acknowledged_rate = update l acknowledged_rate (fl.decimal (pos 5) 2)

  unfoldable pub on_probe_rate : LinkCapacityEstimator F → DataRate → LinkCapacityEstimator F
  on_probe_rate l probe_rate = update l probe_rate (fl.decimal (pos 5) 1)

  -- `estimate`, of an object that has one.
  unfoldable pub estimate_of : LinkCapacityEstimator F → Option DataRate
  unfolding kilobits_per_sec
  estimate_of l = elim l.estimate_kbps [ none ↦ none | some e ↦ some (kilobits_per_sec e) ]
