-- ===== src/Common/Double.antt =====
-- The `double` and `float` of C++: the operations that the code uses, over any type of numbers.
-- IEEE arithmetic is not under the repository's sources, so it is a parameter.
use gcc_chrome.Common.Int.{ℤ}
use Prim.Native.Nat.{ℕ}
use mathlib.Core.Bool.{Bool}

pub record Double {ℓ} (F : Type ℓ) : Type ℓ where
  -- The conversions from and to `int64_t`; the latter truncates.
  pub of_int : ℤ → F
  pub to_int : F → ℤ
  -- `decimal m k` is the literal m / 10 ^ k.
  pub decimal : ℤ → ℕ → F
  pub infinity : F
  pub minus_infinity : F
  pub neg : F → F
  pub add : F → F → F
  pub sub : F → F → F
  pub mul : F → F → F
  pub div : F → F → F
  -- The conversion to `float` and back.
  pub single : F → F
  pub round : F → F
  pub ceil : F → F
  pub fabs : F → F
  pub sqrt : F → F
  pub pow : F → F → F
  pub lt : F → F → Bool
  pub le : F → F → Bool
  pub eq : F → F → Bool
