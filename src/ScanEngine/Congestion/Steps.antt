-- ===== src/ScanEngine/Congestion/Steps.antt =====
-- How far the parallelism moves: one slot up after a full run of responses, and never up after a
-- run of timeouts.
use mathlib.Core.Path.{ap, ap₂}
use skan.Base.{ℕ, zero, suc, ◌+◌, ◌≤◌, ◌<◌, ◌≡◌, arith, ltb, if◌then◌else◌, word_max, replicate}
use skan.Floats.{Floats}
use skan.ScanEngine.Congestion.{
  CongestionController, std_max, scaled_parallelism, on_response, on_timeout,
}
use skan.ScanEngine.Congestion.Bounds.{InRange, response, timeout, run}

module _ {D : Type 0} (F : Floats D) where
  -- What one response short of the threshold leaves alone.
  record Waits (c d : CongestionController D) : Type 0 where
    successes : d.state.consecutive_successes ≡ c.state.consecutive_successes + 1
    current : d.state.current_parallelism ≡ c.state.current_parallelism
    in_range : InRange d
    config : d.config ≡ c.config

  response-Waits :
      (c : CongestionController D)
      → c.state.consecutive_successes + 1 < c.config.recovery_threshold
      → c.config.recovery_threshold ≤ word_max
      → InRange c
      → Waits c (on_response F c)
  unfolding on_response
  response-Waits c h k v = ground arith

  response_raises :
      (c : CongestionController D)
      → c.state.consecutive_successes + 1 ≡ c.config.recovery_threshold
      → c.config.recovery_threshold ≤ word_max
      → c.config.max_parallelism ≤ word_max
      → InRange c
      → (on_response F c).state.current_parallelism ≡ (
          if ltb c.state.current_parallelism c.config.max_parallelism
          then c.state.current_parallelism + 1
          else c.state.current_parallelism)
  unfolding on_response
  response_raises c h k m v = ground arith

  -- When the run of successes, with n + 1 further responses, just reaches the recovery threshold,
  -- those responses raise the parallelism by exactly one slot, or leave it if it is at its maximum.
  pub responses_raise :
      (n : ℕ) (c : CongestionController D)
      → c.state.consecutive_successes + suc n ≡ c.config.recovery_threshold
      → c.config.recovery_threshold ≤ word_max
      → c.config.max_parallelism ≤ word_max
      → InRange c
      → (run F c (replicate (suc n) response)).state.current_parallelism ≡ (
          if ltb c.state.current_parallelism c.config.max_parallelism
          then c.state.current_parallelism + 1
          else c.state.current_parallelism)
  unfolding run
  responses_raise zero c h k m v = response_raises c (omega arith) k m v
  responses_raise (suc n) c h k m v =
      let w = response-Waits c (omega arith) k v in
      let t = ap (λ g. g.recovery_threshold) w.config in
      let x = ap (λ g. g.max_parallelism) w.config in
      ground (
        arith,
        responses_raise n (on_response F c) (omega arith) (omega arith) (omega arith) w.in_range,
      )

  -- What one timeout short of the threshold leaves alone.
  record Holds (c d : CongestionController D) : Type 0 where
    timeouts : d.state.consecutive_timeouts ≡ c.state.consecutive_timeouts + 1
    current : d.state.current_parallelism ≡ c.state.current_parallelism
    in_range : InRange d
    config : d.config ≡ c.config

  timeout-Holds :
      (c : CongestionController D)
      → c.state.consecutive_timeouts + 1 < c.config.timeout_threshold
      → c.config.timeout_threshold ≤ word_max
      → InRange c
      → Holds c (on_timeout F c)
  unfolding on_timeout
  timeout-Holds c h k v = ground arith

  timeout_cuts :
      (c : CongestionController D)
      → c.state.consecutive_timeouts + 1 ≡ c.config.timeout_threshold
      → c.config.timeout_threshold ≤ word_max
      → InRange c
      → scaled_parallelism F c.config c.state.current_parallelism ≤ c.config.max_parallelism
      → (on_timeout F c).state.current_parallelism
        ≡ std_max c.config.min_parallelism
            (scaled_parallelism F c.config c.state.current_parallelism)
  unfolding on_timeout
  timeout_cuts c h k v s = ground arith

  -- When the run of timeouts, with n + 1 further ones, just reaches the timeout threshold, those
  -- timeouts set the parallelism to the scaled one, or to the minimum where that is larger; the
  -- scaled one is taken to be at most the maximum.
  pub timeouts_cut :
      (n : ℕ) (c : CongestionController D)
      → c.state.consecutive_timeouts + suc n ≡ c.config.timeout_threshold
      → c.config.timeout_threshold ≤ word_max
      → InRange c
      → scaled_parallelism F c.config c.state.current_parallelism ≤ c.config.max_parallelism
      → (run F c (replicate (suc n) timeout)).state.current_parallelism
        ≡ std_max c.config.min_parallelism
            (scaled_parallelism F c.config c.state.current_parallelism)
  unfolding run
  timeouts_cut zero c h k v s = timeout_cuts c (omega arith) k v s
  timeouts_cut (suc n) c h k v s =
      let w = timeout-Holds c (omega arith) k v in
      let t = ap (λ g. g.timeout_threshold) w.config in
      let x = ap (λ g. g.max_parallelism) w.config in
      let y = ap (λ g. g.min_parallelism) w.config in
      let z = ap₂ (scaled_parallelism F) w.config w.current in
      ground (
        arith,
        timeouts_cut n (on_timeout F c) (omega arith) (omega arith) w.in_range (omega arith),
      )
