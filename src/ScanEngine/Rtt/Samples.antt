-- ===== src/ScanEngine/Rtt/Samples.antt =====
-- What the estimator remembers of the samples that it was given.
use skan.Base.{
  ℕ, ◌+◌, ◌%◌, ◌^◌, if◌then◌else◌, ◌≡◌, true, List, [], ◌∷◌, Option, none, some, arith, ℤ, ◌≤ℤ◌,
}
use skan.ScanEngine.Rtt.{
  RttSampleValidity, RttEstimatorConfig, RttEstimator, Precision, create, observe, accepts,
}

-- The smallest and the largest sample bracket the last one, and the average has both its parts.
abbrev pub Brackets : Option ℤ → Option ℤ → Option ℤ → Type 0
Brackets none none none = Unit
Brackets (some low) (some last) (some high) = (low ≤ℤ last) × (last ≤ℤ high)
Brackets _ _ _ = ⊥

abbrev pub Paired {ℓ} : {A : Type ℓ} → Option A → Option A → Type 0
Paired none none = Unit
Paired (some a) (some b) = Unit
Paired _ _ = ⊥

abbrev pub AtMost : Option ℤ → ℤ → Type 0
AtMost none b = ⊥
AtMost (some a) b = a ≤ℤ b

abbrev pub AtLeast : Option ℤ → ℤ → Type 0
AtLeast none b = ⊥
AtLeast (some a) b = b ≤ℤ a

pub record Consistent {D L : Type 0} (e : RttEstimator D L) : Type 0 where
  pub brackets : Brackets e.minimum_sample e.last_sample e.maximum_sample
  pub paired : Paired e.srtt_ms e.rttvar_ms

module _ {D L : Type 0} (P : Precision D L) where
  pub observe_all : RttEstimator D L → List (ℤ × RttSampleValidity) → RttEstimator D L
  observe_all e [] = e
  observe_all e ((sample, validity) ∷ rest) = observe_all (observe P e sample validity).1 rest

  -- How many of the observations the test of `observe` lets through.
  unfoldable pub count_accepted : List (ℤ × RttSampleValidity) → ℕ
  count_accepted [] = 0
  count_accepted ((sample, validity) ∷ rest) =
      (if accepts P sample validity then 1 else 0) + count_accepted rest

  observe-Consistent :
      (e : RttEstimator D L) (sample : ℤ) (validity : RttSampleValidity)
      → Consistent e
      → Consistent (observe P e sample validity).1
  unfolding observe
  observe-Consistent e sample validity v = ground arith

  observe_all-Consistent :
      (e : RttEstimator D L) (obs : List (ℤ × RttSampleValidity))
      → Consistent e
      → Consistent (observe_all e obs)
  unfolding observe_all
  observe_all-Consistent e [] v = v
  observe_all-Consistent e ((sample, validity) ∷ rest) v =
      observe_all-Consistent (observe P e sample validity).1 rest
        (observe-Consistent e sample validity v)

  -- After any observations of a new estimator, it holds a smallest, a last and a largest sample in
  -- that order or none of the three, and both parts of the average or neither.
  pub observations-Consistent :
      (g : RttEstimatorConfig D) (obs : List (ℤ × RttSampleValidity))
      → Consistent (observe_all (create P g) obs)
  unfolding create
  observations-Consistent g obs =
      observe_all-Consistent (create P g) obs (record { brackets = tt; paired = tt })

  -- The sample lies between the smallest and the largest sample that the estimator holds.
  abbrev pub Covers : RttEstimator D L → ℤ → Type 0
  Covers e sample = AtMost e.minimum_sample sample × AtLeast e.maximum_sample sample

  abbrev pub CoversAll : RttEstimator D L → List (ℤ × RttSampleValidity) → Type 0
  CoversAll e [] = Unit
  CoversAll e ((sample, validity) ∷ rest) =
      (accepts P sample validity ≡ true → Covers e sample) × CoversAll e rest

  observe_keeps :
      (e : RttEstimator D L) (sample : ℤ) (validity : RttSampleValidity) (old : ℤ)
      → Covers e old
      → Covers (observe P e sample validity).1 old
  unfolding observe
  observe_keeps e sample validity old c = ground arith

  observe_all_keeps :
      (e : RttEstimator D L) (obs : List (ℤ × RttSampleValidity)) (old : ℤ)
      → Covers e old
      → Covers (observe_all e obs) old
  unfolding observe_all
  observe_all_keeps e [] old c = c
  observe_all_keeps e ((sample, validity) ∷ rest) old c =
      observe_all_keeps (observe P e sample validity).1 rest old
        (observe_keeps e sample validity old c)

  observe-Covers :
      (e : RttEstimator D L) (sample : ℤ) (validity : RttSampleValidity)
      → accepts P sample validity ≡ true
      → Covers (observe P e sample validity).1 sample
  unfolding observe
  observe-Covers e sample validity h = ground arith

  -- Every sample that `observe` accepts stays between the smallest and the largest sample of the
  -- estimator, whatever is observed before and after it.
  pub accepted_samples_covered :
      (e : RttEstimator D L) (obs : List (ℤ × RttSampleValidity))
      → CoversAll (observe_all e obs) obs
  unfolding observe_all
  accepted_samples_covered e [] = tt
  accepted_samples_covered e ((sample, validity) ∷ rest) =
      let next = (observe P e sample validity).1 in
      (
        λ h. observe_all_keeps next rest sample (observe-Covers e sample validity h),
        accepted_samples_covered next rest,
      )

  observe_counts :
      (e : RttEstimator D L) (sample : ℤ) (validity : RttSampleValidity)
      → (observe P e sample validity).1.sample_count % 2 ^ 64
        ≡ (e.sample_count + (if accepts P sample validity then 1 else 0)) % 2 ^ 64
  unfolding observe
  observe_counts e sample validity = ground arith

  -- The sample count is that of the accepted observations, modulo 2 ^ 64.
  pub sample_count_lem :
      (e : RttEstimator D L) (obs : List (ℤ × RttSampleValidity))
      → (observe_all e obs).sample_count % 2 ^ 64 ≡ (e.sample_count + count_accepted obs) % 2 ^ 64
  unfolding observe_all count_accepted
  sample_count_lem e [] = omega arith
  sample_count_lem e ((sample, validity) ∷ rest) = omega (
    arith,
    observe_counts e sample validity,
    sample_count_lem (observe P e sample validity).1 rest,
  )
