-- ===== src/ScanEngine/Rtt/Tests.antt =====
-- Runs of the estimator on thousandths.
use skan.Base.{Option, some, true, false, ℕ, ◌≡◌, refl, [], ◌∷◌, arith, ℤ, pos, negsuc, ◌≤ℤ◌}
use skan.Floats.Sample.{thousandths, ranged}
use skan.ScanEngine.Rtt.{
  RttEstimatorConfig, Precision, valid_response, duplicate, create, observe, timeout_ms,
  clamp_timeout,
}
use skan.ScanEngine.Rtt.Timeout.{IsLong, Rounding, timeout_within}
use skan.ScanEngine.Rtt.Samples.{Consistent, observe_all, observations-Consistent}

abbrev precision : Precision ℕ ℕ
precision = record { double = thousandths; long = thousandths; widen = λ x. x; narrow = λ x. x }

abbrev settings : RttEstimatorConfig ℕ
settings = record {
  minimum_timeout = pos 50;
  maximum_timeout = pos 30000;
  alpha = 125;
  beta = 250;
  multiplier = 4000;
}

first_sample :
    timeout_ms precision (observe precision (create precision settings) (pos 40) valid_response).1
    ≡ pos 120
unfolding timeout_ms observe create clamp_timeout
first_sample = refl

abbrev ranged_precision : Precision (Option ℤ) (Option ℤ)
ranged_precision = record { double = ranged; long = ranged; widen = λ x. x; narrow = λ x. x }

fits : (a : ℤ) → IsLong a → ranged.of_int a ≡ some a
fits a l = ground arith

between :
    (a b : ℤ) (x low high : Option ℤ)
    → low ≡ some a
    → high ≡ some b
    → ranged.is_finite x ≡ true
    → ranged.lt x low ≡ false
    → ranged.lt high x ≡ false
    → (a ≤ℤ ranged.to_int x) × (ranged.to_int x ≤ℤ b)
between a b x low high e f h k l = ground arith

ranged-Rounding : Rounding ranged_precision
ranged-Rounding = record {
  of_int_order = λ a b k l. rw (fits a k, fits b l) refl;
  of_int_finite = λ a l. rw (fits a l) refl;
  narrow_finite = λ x h. h;
  to_int_between = λ a b x k l h i j. between a b x _ _ (fits a k) (fits b l) h i j;
}

abbrev ranged_settings : RttEstimatorConfig (Option ℤ)
ranged_settings = record {
  minimum_timeout = pos 50;
  maximum_timeout = pos 30000;
  alpha = some (pos 0);
  beta = some (pos 0);
  multiplier = some (pos 4);
}

timeout_within_example :
    let e =
      (observe ranged_precision
        (create ranged_precision ranged_settings)
        (pos 90000)
        valid_response).1 in
    (pos 50 ≤ℤ timeout_ms ranged_precision e) × (timeout_ms ranged_precision e ≤ℤ pos 30000)
unfolding observe create
timeout_within_example =
    timeout_within ranged_precision ranged-Rounding
      (observe ranged_precision (create ranged_precision ranged_settings) (pos 90000)
        valid_response).1
      (omega arith) (omega arith) (omega arith)

observations-Consistent_example : Consistent (
    observe_all precision
      (create precision settings)
      ((pos 40, valid_response) ∷ (negsuc 0, valid_response) ∷ (pos 7, duplicate) ∷ []))
observations-Consistent_example =
    observations-Consistent precision settings
      ((pos 40, valid_response) ∷ (negsuc 0, valid_response) ∷ (pos 7, duplicate) ∷ [])
