-- ===== src/ScanEngine/Rtt.antt =====
-- include/scanengine/rtt_estimator.hpp and src/scanengine/rtt_estimator.cpp: the smoothed round
-- trip time. `D` stands for double and `L` for long double; milliseconds are integers.
pub mod Timeout
pub mod Samples
mod Tests
use skan.Base.{
  ℕ, ◌-◌, ◌^◌, Bool, true, false, not, ◌||◌, Option, none, some, if◌then◌else◌, increment, ℤ, pos,
  ◌==◌, ltz, minz, maxz,
}
use skan.Floats.{Floats}

-- `enum class RttSampleValidity`
pub data RttSampleValidity : Type 0 where
  valid_response timeout duplicate late_response malformed_response : RttSampleValidity

-- `validity == RttSampleValidity::ValidResponse`
abbrev pub is_valid_response : RttSampleValidity → Bool
is_valid_response valid_response = true
is_valid_response _ = false

-- `struct RttEstimatorConfig`
pub record RttEstimatorConfig (D : Type 0) : Type 0 where
  pub minimum_timeout : ℤ
  pub maximum_timeout : ℤ
  pub alpha : D
  pub beta : D
  pub multiplier : D

-- `class RttEstimator`
pub record RttEstimator (D L : Type 0) : Type 0 where
  pub config : RttEstimatorConfig D
  pub srtt_ms : Option L
  pub rttvar_ms : Option L
  pub last_sample : Option ℤ
  pub minimum_sample : Option ℤ
  pub maximum_sample : Option ℤ
  pub sample_sum_ms : L
  pub sample_count : ℕ

-- The two floating point types and the conversions between them.
pub record Precision (D L : Type 0) : Type 0 where
  pub double : Floats D
  pub long : Floats L
  pub widen : D → L
  pub narrow : L → D

abbrev pub long_long_max : ℤ
long_long_max = pos (2 ^ 63 - 1)

abbrev pub or_else {ℓ κ} : {A : Type ℓ} {B : Type κ} → Option A → B → (A → B) → B
or_else none b f = b
or_else (some a) b f = f a

module _ {D L : Type 0} (P : Precision D L) where
  open P use {double as F, long as G, widen, narrow}

  -- `RttEstimator::RttEstimator`
  unfoldable pub create : RttEstimatorConfig D → RttEstimator D L
  create g = record {
    config = g;
    srtt_ms = none;
    rttvar_ms = none;
    last_sample = none;
    minimum_sample = none;
    maximum_sample = none;
    sample_sum_ms = G.literal 0 1;
    sample_count = 0;
  }

  -- The first sample starts the averages, and a later one moves them. `*rttvar_ms_` is read only
  -- where it was set with `srtt_ms_`; the zero stands for a read of an empty optional.
  smooth : RttEstimator D L → L → RttEstimator D L
  smooth e value =
      or_else e.srtt_ms
        (record e { srtt_ms = some value; rttvar_ms = some (G.div value (G.literal 2 1)) })
        (λ srtt. record e {
          rttvar_ms = some (
              G.add
                (G.mul (G.sub (G.literal 1 1) (widen e.config.beta))
                  (or_else e.rttvar_ms (G.literal 0 1) (λ v. v)))
                (G.mul (widen e.config.beta) (G.abs (G.sub srtt value))));
          srtt_ms = some (
              G.add (G.mul (G.sub (G.literal 1 1) (widen e.config.alpha)) srtt)
                (G.mul (widen e.config.alpha) value));
        })

  -- The test at the head of `observe`.
  unfoldable pub accepts : ℤ → RttSampleValidity → Bool
  accepts sample validity = not (
      not (is_valid_response validity) || ltz sample (pos 0) || not (F.is_finite (F.of_int sample)))

  -- `observe`
  unfoldable pub observe : RttEstimator D L → ℤ → RttSampleValidity → Bool × RttEstimator D L
  unfolding smooth accepts
  observe e sample validity =
      if accepts sample validity
      then (
        true,
        record (smooth e (G.of_int sample)) {
          last_sample = some sample;
          minimum_sample = some (or_else e.minimum_sample sample (λ m. minz m sample));
          maximum_sample = some (or_else e.maximum_sample sample (λ m. maxz m sample));
          sample_sum_ms = G.add e.sample_sum_ms (G.of_int sample);
          sample_count = increment e.sample_count;
        },
      )
      else (false, e)

  -- `std::clamp` on long doubles
  abbrev clamp : L → L → L → L
  clamp value low high = if G.lt value low then low else if G.lt high value then high else value

  -- `clamp_timeout`
  unfoldable pub clamp_timeout : RttEstimatorConfig D → L → ℤ
  clamp_timeout g value =
      if not (F.is_finite (narrow value))
      then g.maximum_timeout
      else if G.le (G.of_int long_long_max) bounded
      then g.maximum_timeout
      else G.to_int bounded
    where
      bounded : L
      bounded = clamp value (G.of_int g.minimum_timeout) (G.of_int g.maximum_timeout)

  -- `timeout`
  unfoldable pub timeout_ms : RttEstimator D L → ℤ
  timeout_ms e = or_else e.srtt_ms e.config.minimum_timeout λ srtt.
      or_else e.rttvar_ms e.config.minimum_timeout
        λ rttvar. clamp_timeout e.config (G.add srtt (G.mul (widen e.config.multiplier) rttvar))

  -- `average_sample_ms`
  pub average_sample_ms : RttEstimator D L → D
  average_sample_ms e =
      if e.sample_count == 0
      then F.literal 0 1
      else narrow (G.div e.sample_sum_ms (G.of_nat e.sample_count))

  -- `srtt`
  pub srtt : RttEstimator D L → Option ℤ
  srtt e = or_else e.srtt_ms none (λ value. some (clamp_timeout e.config value))

  -- `rttvar`
  pub rttvar : RttEstimator D L → Option ℤ
  rttvar e = or_else e.rttvar_ms none (λ value. some (clamp_timeout e.config value))
