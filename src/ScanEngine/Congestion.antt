-- ===== src/ScanEngine/Congestion.antt =====
-- include/scanengine/congestion.hpp and src/scanengine/congestion.cpp: the number of probes in
-- flight, raised after successes and cut after timeouts. A method returns the new controller.
pub mod Bounds
pub mod Steps
mod Tests
use skan.Base.{ℕ, ◌+◌, Bool, true, false, ◌&&◌, ltb, leb, if◌then◌else◌, increment, word_max}
use skan.Floats.{Floats}

-- `struct CongestionConfig`
pub record CongestionConfig (D : Type 0) : Type 0 where
  pub min_parallelism : ℕ
  pub max_parallelism : ℕ
  pub initial_parallelism : ℕ
  pub timeout_threshold : ℕ
  pub recovery_threshold : ℕ
  pub backoff_factor : D
  pub drop_rate_alpha : D

-- `struct CongestionState`
pub record CongestionState (D : Type 0) : Type 0 where
  pub min_parallelism : ℕ
  pub max_parallelism : ℕ
  pub current_parallelism : ℕ
  pub drop_rate : D
  pub responses : ℕ
  pub timeouts : ℕ
  pub consecutive_timeouts : ℕ
  pub consecutive_successes : ℕ
  pub backoff_count : ℕ

-- `class CongestionController`
pub record CongestionController (D : Type 0) : Type 0 where
  pub config : CongestionConfig D
  pub state : CongestionState D

-- `std::clamp(value, low, high)`
abbrev pub clamp : ℕ → ℕ → ℕ → ℕ
clamp value low high = if ltb value low then low else if ltb high value then high else value

-- `std::max(a, b)`
abbrev pub std_max : ℕ → ℕ → ℕ
std_max a b = if ltb a b then b else a

module _ {D : Type 0} (F : Floats D) where
  open F use {literal, of_nat, add, sub, mul, lt, le, is_finite, to_nat}

  -- `clamp_parallelism`
  unfoldable pub clamp_parallelism : CongestionController D → CongestionController D
  clamp_parallelism c = record c {
    state = record s {
      current_parallelism = clamp s.current_parallelism g.min_parallelism g.max_parallelism;
    };
  }
    where
      open c use {config as g, state as s}

  -- `CongestionController::CongestionController`
  unfoldable pub create : CongestionConfig D → CongestionController D
  unfolding clamp_parallelism
  create g = clamp_parallelism (record {
    config = g;
    state = record {
      min_parallelism = g.min_parallelism;
      max_parallelism = g.max_parallelism;
      current_parallelism = g.initial_parallelism;
      drop_rate = literal 0 1;
      responses = 0;
      timeouts = 0;
      consecutive_timeouts = 0;
      consecutive_successes = 0;
      backoff_count = 0;
    };
  })

  -- `valid`
  unfoldable pub is_valid : CongestionController D → Bool
  is_valid c =
      ltb 0 g.min_parallelism
      && leb g.min_parallelism g.max_parallelism
      && leb g.min_parallelism g.initial_parallelism
      && leb g.initial_parallelism g.max_parallelism
      && ltb 0 g.timeout_threshold
      && ltb 0 g.recovery_threshold
      && lt (literal 0 1) g.backoff_factor
      && lt g.backoff_factor (literal 1 1)
      && is_finite g.backoff_factor
      && lt (literal 0 1) g.drop_rate_alpha
      && le g.drop_rate_alpha (literal 1 1)
      && is_finite g.drop_rate_alpha
    where
      open c use {config as g}

  -- The tail of `on_response`: one more slot once the run of successes is long enough.
  recover : CongestionConfig D → CongestionState D → CongestionState D
  recover g s =
      if leb g.recovery_threshold s.consecutive_successes
      then record s {
        current_parallelism =
            if ltb s.current_parallelism s.max_parallelism
            then increment s.current_parallelism
            else s.current_parallelism;
        consecutive_successes = 0;
      }
      else s

  -- `on_response`
  unfoldable pub on_response : CongestionController D → CongestionController D
  unfolding clamp_parallelism recover
  on_response c = clamp_parallelism (record c {
    state = recover g (record s {
      responses = increment s.responses;
      consecutive_timeouts = 0;
      consecutive_successes =
          if ltb s.consecutive_successes word_max
          then increment s.consecutive_successes
          else s.consecutive_successes;
      drop_rate = mul (sub (literal 1 1) g.drop_rate_alpha) s.drop_rate;
    });
  })
    where
      open c use {config as g, state as s}

  -- The scaled parallelism of `on_timeout`, as a `std::size_t`.
  unfoldable pub scaled_parallelism : CongestionConfig D → ℕ → ℕ
  scaled_parallelism g current =
      if lt scaled (literal 1 1)
      then 1
      else if le (of_nat word_max) scaled
      then word_max
      else to_nat scaled
    where
      scaled : D
      scaled = mul (of_nat current) g.backoff_factor

  -- The tail of `on_timeout`: cut back once the run of timeouts is long enough.
  back_off : CongestionConfig D → CongestionState D → CongestionState D
  back_off g s =
      if leb g.timeout_threshold s.consecutive_timeouts
      then record s {
        current_parallelism =
            std_max g.min_parallelism (scaled_parallelism g s.current_parallelism);
        backoff_count = increment s.backoff_count;
        consecutive_timeouts = 0;
      }
      else s

  -- `on_timeout`
  unfoldable pub on_timeout : CongestionController D → CongestionController D
  unfolding clamp_parallelism back_off
  on_timeout c = clamp_parallelism (record c {
    state = back_off g (record s {
      timeouts = increment s.timeouts;
      consecutive_successes = 0;
      consecutive_timeouts =
          if ltb s.consecutive_timeouts word_max
          then increment s.consecutive_timeouts
          else s.consecutive_timeouts;
      drop_rate = add g.drop_rate_alpha (mul (sub (literal 1 1) g.drop_rate_alpha) s.drop_rate);
    });
  })
    where
      open c use {config as g, state as s}
