-- ===== src/ScanEngine/Controller.antt =====
-- include/scanengine/scan_engine.hpp and src/scanengine/scan_engine.cpp: `TimingController`, which
-- joins a round trip estimator and a congestion controller for one stage of a scan, and `ScanEngine`,
-- which makes controllers and groups from a profile.
pub mod Limits
mod Tests
use skan.Base.{ℕ, Bool, ◌&&◌, Option, none, some, List, ltb, ◌==◌, if◌then◌else◌, increment, ℤ}
use skan.Core.{StatusCode, ok, invalid_argument, is_ok}
use skan.Floats.{Floats}
use skan.ScanEngine.Congestion
use skan.ScanEngine.Congestion.{CongestionController}
use skan.ScanEngine.Rtt
use skan.ScanEngine.Rtt.{RttEstimator, Precision}
use skan.ScanEngine.Timing
use skan.ScanEngine.Timing.{TimingProfile}
use skan.ScanEngine.Metrics.{ScanMetrics, set_parallelism, record_rtt, empty_metrics}
use skan.ScanEngine.Group
use skan.ScanEngine.Group.{ScanGroup}

-- `std::min`
abbrev pub std_min : ℕ → ℕ → ℕ
std_min a b = if ltb b a then b else a

-- `class TimingController`
pub record TimingController (D L : Type 0) : Type 0 where
  pub profile : TimingProfile D
  pub rtt : RttEstimator D L
  pub congestion : CongestionController D
  pub metrics : ScanMetrics D

-- `class ScanEngine`
pub record ScanEngine (D : Type 0) : Type 0 where
  pub profile : TimingProfile D

module _ {D L : Type 0} (P : Precision D L) where
  open P use {double as F}

  -- `TimingController::TimingController`
  unfoldable pub create : TimingProfile D → TimingController D L
  create p = record {
    profile = p;
    rtt = Rtt.create P (record {
      minimum_timeout = p.minimum_timeout;
      maximum_timeout = p.maximum_timeout;
      alpha = F.literal 1 8;
      beta = F.literal 1 4;
      multiplier = p.rtt_multiplier;
    });
    congestion = Congestion.create F (record {
      min_parallelism = p.min_parallelism;
      max_parallelism = p.max_parallelism;
      initial_parallelism = p.initial_parallelism;
      timeout_threshold = p.timeout_threshold;
      recovery_threshold = p.recovery_threshold;
      backoff_factor = p.backoff_factor;
      drop_rate_alpha = p.drop_rate_alpha;
    });
    metrics = empty_metrics F;
  }

  -- `validate`
  unfoldable pub validate : TimingController D L → StatusCode
  validate t =
      if is_ok (Timing.validate F t.profile) && Congestion.is_valid F t.congestion
      then ok
      else invalid_argument

  -- `timeout`
  unfoldable pub timeout : TimingController D L → ℤ
  timeout t = Rtt.timeout_ms P t.rtt

  -- `on_response`
  unfoldable pub on_response : TimingController D L → ℤ → TimingController D L
  on_response t rtt =
      let c = Congestion.on_response F t.congestion in
      let m = record_rtt F (record t.metrics { completed = increment t.metrics.completed }) rtt in
      record t {
        rtt = (Rtt.observe P t.rtt rtt Rtt.valid_response).1;
        congestion = c;
        metrics = record m {
          estimated_drop_rate = c.state.drop_rate;
          current_parallelism = c.state.current_parallelism;
        };
      }

  -- `on_timeout`
  unfoldable pub on_timeout : TimingController D L → TimingController D L
  on_timeout t =
      let c = Congestion.on_timeout F t.congestion in
      record t {
        congestion = c;
        metrics = record t.metrics {
          timed_out = increment t.metrics.timed_out;
          timeout_count = increment t.metrics.timeout_count;
          estimated_drop_rate = c.state.drop_rate;
          current_parallelism = c.state.current_parallelism;
        };
      }

  -- `ScanEngine::validate`
  unfoldable pub validate_engine : ScanEngine D → StatusCode
  validate_engine e = Timing.validate F e.profile

  -- `create_timing_controller`
  unfoldable pub create_timing_controller : ScanEngine D → TimingController D L
  create_timing_controller e = create e.profile

  -- `create_group`; `none` is the null pointer.
  unfoldable pub create_group : ScanEngine D → List ℕ → Option (ScanGroup D L)
  create_group e name =
      if is_ok (validate_engine e) then some (Group.create P name e.profile) else none

module _ {D L : Type 0} where
  -- `parallelism_limit`
  unfoldable pub parallelism_limit : TimingController D L → ℕ → ℕ
  parallelism_limit t configured_limit =
      if configured_limit == 0
      then t.congestion.state.current_parallelism
      else std_min configured_limit t.congestion.state.current_parallelism

  -- `should_retry`
  unfoldable pub should_retry : TimingController D L → ℕ → Bool
  should_retry t retry_count = ltb retry_count t.profile.max_retries

  -- `on_submitted`
  unfoldable pub on_submitted : TimingController D L → ℕ → TimingController D L
  on_submitted t outstanding = record t {
    metrics =
        set_parallelism (record t.metrics { total_submitted = increment t.metrics.total_submitted })
          outstanding outstanding;
  }
