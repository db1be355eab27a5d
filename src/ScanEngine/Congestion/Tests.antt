-- ===== src/ScanEngine/Congestion/Tests.antt =====
-- Runs of the congestion controller on thousandths.
use skan.Base.{ℕ, ◌≤◌, ◌≡◌, refl, [], ◌∷◌, arith, replicate}
use skan.Floats.Sample.{thousandths}
use skan.ScanEngine.Congestion.{CongestionConfig, create, is_valid, scaled_parallelism}
use skan.ScanEngine.Congestion.Bounds.{InRange, response, timeout, run, parallelism_in_range}
use skan.ScanEngine.Congestion.Steps.{responses_raise, timeouts_cut}

abbrev settings : CongestionConfig ℕ
settings = record {
  min_parallelism = 1;
  max_parallelism = 64;
  initial_parallelism = 8;
  timeout_threshold = 2;
  recovery_threshold = 4;
  backoff_factor = 500;
  drop_rate_alpha = 125;
}

parallelism_in_range_example :
    let c = run thousandths (create thousandths settings) (timeout ∷ timeout ∷ response ∷ []) in
    (1 ≤ c.state.current_parallelism) × (c.state.current_parallelism ≤ 64)
unfolding is_valid create
parallelism_in_range_example =
    parallelism_in_range thousandths settings (timeout ∷ timeout ∷ response ∷ []) refl

settings-InRange : InRange (create thousandths settings)
unfolding create
settings-InRange = omega arith

responses_raise_example :
    (run thousandths (create thousandths settings) (replicate 4 response)).state.current_parallelism
    ≡ 9
unfolding create
responses_raise_example =
    responses_raise thousandths 3 (create thousandths settings) refl (omega arith) (omega arith)
      settings-InRange

timeouts_cut_example :
    (run thousandths (create thousandths settings) (replicate 2 timeout)).state.current_parallelism
    ≡ 4
unfolding create scaled_parallelism
timeouts_cut_example =
    timeouts_cut thousandths 1 (create thousandths settings) refl (omega arith) settings-InRange
      (omega arith)
