-- ===== src/ScanEngine/Rtt/Timeout.antt =====
-- The timeout lies within the configured limits, under laws of the long double conversions.
use skan.Base.{negsuc, ◌-◌, ◌^◌, ◌≡◌, true, false, arith, ℤ, ltz, ◌≤ℤ◌, Option, none, some}
use skan.ScanEngine.Rtt.{
  RttEstimatorConfig, RttEstimator, Precision, long_long_max, clamp_timeout, timeout_ms, or_else,
}

-- A 64-bit signed integer, as the count of a `std::chrono::milliseconds` is.
abbrev pub IsLong : ℤ → Type 0
IsLong a = (negsuc (2 ^ 63 - 1) ≤ℤ a) × (a ≤ℤ long_long_max)

-- An 80-bit long double holds every 64-bit integer exactly, its order on them is theirs, and a
-- conversion to an integer truncates, so it stays between integer bounds. A value that is finite
-- as a double is finite. Nothing is said of integers beyond 64 bits.
pub record Rounding {D L : Type 0} (P : Precision D L) : Type 0 where
  pub of_int_order :
      (a b : ℤ) → IsLong a → IsLong b → P.long.lt (P.long.of_int a) (P.long.of_int b) ≡ ltz a b
  pub of_int_finite : (a : ℤ) → IsLong a → P.long.is_finite (P.long.of_int a) ≡ true
  pub narrow_finite : (x : L) → P.double.is_finite (P.narrow x) ≡ true → P.long.is_finite x ≡ true
  pub to_int_between :
      (a b : ℤ) (x : L)
      → IsLong a
      → IsLong b
      → P.long.is_finite x ≡ true
      → P.long.lt x (P.long.of_int a) ≡ false
      → P.long.lt (P.long.of_int b) x ≡ false
      → (a ≤ℤ P.long.to_int x) × (P.long.to_int x ≤ℤ b)

module _ {D L : Type 0} (P : Precision D L) (R : Rounding P) where
  open P use {long as G}

  clamp_timeout_bounds :
      (g : RttEstimatorConfig D) (value : L)
      → IsLong g.minimum_timeout
      → IsLong g.maximum_timeout
      → g.minimum_timeout ≤ℤ g.maximum_timeout
      → (g.minimum_timeout ≤ℤ clamp_timeout P g value)
        × (clamp_timeout P g value ≤ℤ g.maximum_timeout)
  unfolding clamp_timeout
  clamp_timeout_bounds g value lo hi h = ground (
    arith,
    R.of_int_order g.minimum_timeout g.minimum_timeout lo lo,
    R.of_int_order g.maximum_timeout g.minimum_timeout hi lo,
    R.of_int_order g.maximum_timeout g.maximum_timeout hi hi,
    R.of_int_finite g.minimum_timeout lo,
    R.of_int_finite g.maximum_timeout hi,
    R.narrow_finite value,
    R.to_int_between g.minimum_timeout g.maximum_timeout value lo hi,
    R.to_int_between g.minimum_timeout g.maximum_timeout (G.of_int g.minimum_timeout) lo hi,
    R.to_int_between g.minimum_timeout g.maximum_timeout (G.of_int g.maximum_timeout) lo hi,
  )

  -- The bounds, for each way in which the averages may be set.
  estimate_bounds :
      (g : RttEstimatorConfig D) (average deviation : Option L) (f : L → L → L)
      → IsLong g.minimum_timeout
      → IsLong g.maximum_timeout
      → g.minimum_timeout ≤ℤ g.maximum_timeout
      → let t =
          or_else average g.minimum_timeout
            λ a. or_else deviation g.minimum_timeout λ d. clamp_timeout P g (f a d) in
        (g.minimum_timeout ≤ℤ t) × (t ≤ℤ g.maximum_timeout)
  estimate_bounds g none deviation f lo hi h = omega arith
  estimate_bounds g (some a) none f lo hi h = omega arith
  estimate_bounds g (some a) (some d) f lo hi h = clamp_timeout_bounds g (f a d) lo hi h

  -- With a minimum and a maximum timeout of 64 bits, the minimum at most the maximum, the timeout
  -- lies between the two in every state of the estimator, where the conversions between long doubles
  -- and 64-bit integers are exact and keep the order.
  pub timeout_within :
      (e : RttEstimator D L)
      → IsLong e.config.minimum_timeout
      → IsLong e.config.maximum_timeout
      → e.config.minimum_timeout ≤ℤ e.config.maximum_timeout
      → (e.config.minimum_timeout ≤ℤ timeout_ms P e) × (timeout_ms P e ≤ℤ e.config.maximum_timeout)
  unfolding timeout_ms
  timeout_within e lo hi h =
      estimate_bounds e.config e.srtt_ms e.rttvar_ms
        (λ a d. G.add a (G.mul (P.widen e.config.multiplier) d)) lo hi h
