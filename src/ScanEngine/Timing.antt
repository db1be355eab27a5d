-- ===== src/ScanEngine/Timing.antt =====
-- include/scanengine/timing_profile.hpp and src/scanengine/timing_profile.cpp: the six built-in
-- timing profiles, their validation and their names.
pub mod Profiles
mod Tests
use skan.Base.{
  ℕ, ◌+◌, ◌-◌, Bool, true, false, ◌||◌, not, Option, none, some, List, [], ◌∷◌, ltb, ◌==◌,
  if◌then◌else◌, length, get_elem?, ℤ, pos, ltz,
}
use skan.Core.{StatusCode, ok, invalid_argument}
use skan.Floats.{Floats}

-- `enum class TimingProfileId`
pub data TimingProfileId : Type 0 where
  t0 t1 t2 t3 t4 t5 : TimingProfileId

-- `static_cast<std::size_t>(id)`
abbrev pub index_of : TimingProfileId → ℕ
index_of t0 = 0
index_of t1 = 1
index_of t2 = 2
index_of t3 = 3
index_of t4 = 4
index_of t5 = 5

-- `struct TimingProfile`
pub record TimingProfile (D : Type 0) : Type 0 where
  pub id : TimingProfileId
  pub min_parallelism : ℕ
  pub max_parallelism : ℕ
  pub initial_parallelism : ℕ
  pub minimum_timeout : ℤ
  pub maximum_timeout : ℤ
  pub rtt_multiplier : D
  pub backoff_factor : D
  pub timeout_threshold : ℕ
  pub recovery_threshold : ℕ
  pub drop_rate_alpha : D
  pub max_retries : ℕ

module _ {D : Type 0} (F : Floats D) where
  open F use {literal, lt, le, is_finite}

  -- One row of `kProfiles`. The backoff factor, the drop rate and the retries are the same in all.
  profile : TimingProfileId → ℕ → ℕ → ℕ → ℕ → ℕ → D → ℕ → ℕ → TimingProfile D
  profile id min_p max_p initial_p min_t max_t multiplier timeouts recovery = record {
    id = id;
    min_parallelism = min_p;
    max_parallelism = max_p;
    initial_parallelism = initial_p;
    minimum_timeout = pos min_t;
    maximum_timeout = pos max_t;
    rtt_multiplier = multiplier;
    backoff_factor = literal 1 2;
    timeout_threshold = timeouts;
    recovery_threshold = recovery;
    drop_rate_alpha = literal 1 8;
    max_retries = 0;
  }

  -- `kProfiles`
  profiles : List (TimingProfile D)
  unfolding profile
  profiles =
      profile t0 1 4 1 500 30000 (literal 5 1) 1 8
      ∷ profile t1 1 8 2 250 30000 (literal 5 1) 2 6
      ∷ profile t2 1 32 4 100 30000 (literal 9 2) 2 5
      ∷ profile t3 1 64 8 50 30000 (literal 4 1) 2 4
      ∷ profile t4 2 128 16 50 10000 (literal 3 1) 2 3
      ∷ profile t5 4 256 32 25 5000 (literal 5 2) 1 2
      ∷ []

  -- `for_id`, at the number of the identifier
  unfoldable pub for_index : ℕ → TimingProfile D
  unfolding profile profiles
  for_index index = elim (get_elem? profiles index) [
    | some p ↦ p
    | none ↦ profile t3 1 64 8 50 30000 (literal 4 1) 2 4
  ]

  -- `TimingProfile::for_id`
  unfoldable pub for_id : TimingProfileId → TimingProfile D
  unfolding for_index
  for_id id = for_index (index_of id)

  -- The first test of `validate`.
  bad_parallelism : TimingProfile D → Bool
  bad_parallelism p =
      p.min_parallelism == 0
      || ltb p.max_parallelism p.min_parallelism
      || ltb p.initial_parallelism p.min_parallelism
      || ltb p.max_parallelism p.initial_parallelism

  -- The second test of `validate`.
  bad_timing : TimingProfile D → Bool
  bad_timing p =
      not (ltz (pos 0) p.minimum_timeout)
      || ltz p.maximum_timeout p.minimum_timeout
      || le p.rtt_multiplier (literal 0 1)
      || not (is_finite p.rtt_multiplier)
      || le p.backoff_factor (literal 0 1)
      || le (literal 1 1) p.backoff_factor
      || not (is_finite p.backoff_factor)
      || p.timeout_threshold == 0
      || p.recovery_threshold == 0
      || le p.drop_rate_alpha (literal 0 1)
      || lt (literal 1 1) p.drop_rate_alpha
      || not (is_finite p.drop_rate_alpha)

  -- `TimingProfile::validate`
  unfoldable pub validate : TimingProfile D → StatusCode
  unfolding bad_parallelism bad_timing
  validate p =
      if bad_parallelism p then invalid_argument else if bad_timing p then invalid_argument else ok

  -- `TimingProfile::parse` on the bytes of the text; the profile is set only on success.
  unfoldable pub parse : List ℕ → StatusCode × Option (TimingProfile D)
  unfolding for_index
  parse (first ∷ second ∷ []) =
      if not (first == b'T') || ltb second b'0' || ltb b'5' second
      then (invalid_argument, none)
      else (ok, some (for_index (second - b'0')))
  parse _ = (invalid_argument, none)

-- `timing_profile_name`
unfoldable pub timing_profile_name : TimingProfileId → List ℕ
timing_profile_name t0 = b'T' ∷ b'0' ∷ []
timing_profile_name t1 = b'T' ∷ b'1' ∷ []
timing_profile_name t2 = b'T' ∷ b'2' ∷ []
timing_profile_name t3 = b'T' ∷ b'3' ∷ []
timing_profile_name t4 = b'T' ∷ b'4' ∷ []
timing_profile_name t5 = b'T' ∷ b'5' ∷ []
