-- ===== src/ScanEngine/Metrics.antt =====
-- include/scanengine/scan_metrics.hpp and src/scanengine/scan_metrics.cpp: the counters of a scan.
-- A time point is the integer count of the steady clock; the clock's reading is an argument.
pub mod Peak
mod Tests
use skan.Base.{
  ℕ, ◌^◌, Bool, true, false, ◌||◌, not, List, [], ◌∷◌, Option, none, some, ltb, if◌then◌else◌,
  increment, word_max, replicate, ℤ, pos, ltz, ◌-ℤ◌, div_trunc,
}
use skan.Floats.{Floats}
use skan.ScanEngine.Congestion.{std_max}
use skan.ScanEngine.Rtt.{or_else}

-- `struct ScanMetrics`
pub record ScanMetrics (D : Type 0) : Type 0 where
  pub total_queued : ℕ
  pub targets_total : ℕ
  pub targets_completed : ℕ
  pub targets_failed : ℕ
  pub probes_submitted : ℕ
  pub probes_completed : ℕ
  pub probes_timed_out : ℕ
  pub probes_failed : ℕ
  pub probes_cancelled : ℕ
  pub probes_retried : ℕ
  pub retries : ℕ
  pub bytes_sent : ℕ
  pub bytes_received : ℕ
  pub total_submitted : ℕ
  pub completed : ℕ
  pub timed_out : ℕ
  pub failed : ℕ
  pub cancelled : ℕ
  pub duplicate_responses : ℕ
  pub late_responses : ℕ
  pub malformed_responses : ℕ
  pub parse_errors : ℕ
  pub correlation_misses : ℕ
  pub active_probes : ℕ
  pub peak_active_probes : ℕ
  pub current_parallelism : ℕ
  pub maximum_observed_parallelism : ℕ
  pub current_rtt_ms : Option D
  pub minimum_rtt_ms : Option D
  pub maximum_rtt_ms : Option D
  pub srtt_ms : Option D
  pub rttvar_ms : Option D
  pub rto_ms : Option D
  pub average_rtt_ms : D
  pub rtt_samples : ℕ
  pub timeout_count : ℕ
  pub retry_count : ℕ
  pub timeout_backoffs : ℕ
  pub estimated_drop_rate : D
  pub started_at : ℤ
  pub completed_at : ℤ
  pub stage_duration_ms : List D

-- `saturating_increment`
unfoldable pub saturating_increment : ℕ → ℕ
saturating_increment value = if ltb value word_max then increment value else value

-- The value of `ScanTimePoint{}`.
abbrev pub epoch : ℤ
epoch = pos 0

abbrev is_epoch : ℤ → Bool
is_epoch t = not (ltz t epoch || ltz epoch t)

module _ {D : Type 0} where
  -- `set_parallelism`
  unfoldable pub set_parallelism : ScanMetrics D → ℕ → ℕ → ScanMetrics D
  set_parallelism m current observed = record m {
    current_parallelism = current;
    maximum_observed_parallelism = std_max m.maximum_observed_parallelism observed;
    active_probes = current;
    peak_active_probes = std_max m.peak_active_probes observed;
  }

  -- The last line of the four `record_` methods that follow.
  note_active : ScanMetrics D → ℕ → ScanMetrics D
  unfolding set_parallelism
  note_active m active = set_parallelism m active (std_max active m.peak_active_probes)

  -- `record_submission`
  unfoldable pub record_submission : ScanMetrics D → ℕ → ScanMetrics D
  unfolding saturating_increment note_active
  record_submission m active =
      note_active
        (record m {
          probes_submitted = saturating_increment m.probes_submitted;
          total_submitted = saturating_increment m.total_submitted;
        })
        active

  -- `record_completion`
  unfoldable pub record_completion : ScanMetrics D → ℕ → ScanMetrics D
  unfolding saturating_increment note_active
  record_completion m active =
      note_active
        (record m {
          probes_completed = saturating_increment m.probes_completed;
          completed = saturating_increment m.completed;
        })
        active

  -- `record_timeout`
  unfoldable pub record_timeout : ScanMetrics D → ℕ → ScanMetrics D
  unfolding saturating_increment note_active
  record_timeout m active =
      note_active
        (record m {
          probes_timed_out = saturating_increment m.probes_timed_out;
          timed_out = saturating_increment m.timed_out;
          timeout_count = saturating_increment m.timeout_count;
        })
        active

  -- `record_failure`
  unfoldable pub record_failure : ScanMetrics D → ℕ → ScanMetrics D
  unfolding saturating_increment note_active
  record_failure m active =
      note_active
        (record m {
          probes_failed = saturating_increment m.probes_failed;
          failed = saturating_increment m.failed;
        })
        active

  -- `record_retry`
  unfoldable pub record_retry : ScanMetrics D → ScanMetrics D
  unfolding saturating_increment
  record_retry m = record m {
    retries = saturating_increment m.retries;
    retry_count = saturating_increment m.retry_count;
    probes_retried = saturating_increment m.probes_retried;
  }

  -- `record_cancellation`
  unfoldable pub record_cancellation : ScanMetrics D → ScanMetrics D
  unfolding saturating_increment
  record_cancellation m = record m {
    cancelled = saturating_increment m.cancelled;
    probes_cancelled = saturating_increment m.probes_cancelled;
  }

  -- `record_target_failure`
  unfoldable pub record_target_failure : ScanMetrics D → ScanMetrics D
  unfolding saturating_increment
  record_target_failure m = record m { targets_failed = saturating_increment m.targets_failed }

  -- `record_timeout_backoff`
  unfoldable pub record_timeout_backoff : ScanMetrics D → ScanMetrics D
  unfolding saturating_increment
  record_timeout_backoff m = record m { timeout_backoffs = saturating_increment m.timeout_backoffs }

  -- `elapsed`, in milliseconds of a clock that counts nanoseconds
  unfoldable pub elapsed : ScanMetrics D → ℤ → ℤ
  elapsed m now =
      if is_epoch m.started_at || not (ltz m.started_at end_at)
      then pos 0
      else if ltz duration (pos 0)
      then pos 0
      else duration
    where
      end_at : ℤ
      end_at = if is_epoch m.completed_at then now else m.completed_at

      duration : ℤ
      duration = div_trunc (end_at -ℤ m.started_at) (10 ^ 6)

module _ {D : Type 0} (F : Floats D) where
  open F use {literal, of_nat, of_int, add, sub, mul, div, abs, lt}

  -- `ScanMetrics{}`
  unfoldable pub empty_metrics : ScanMetrics D
  empty_metrics = record {
    total_queued = 0;
    targets_total = 0;
    targets_completed = 0;
    targets_failed = 0;
    probes_submitted = 0;
    probes_completed = 0;
    probes_timed_out = 0;
    probes_failed = 0;
    probes_cancelled = 0;
    probes_retried = 0;
    retries = 0;
    bytes_sent = 0;
    bytes_received = 0;
    total_submitted = 0;
    completed = 0;
    timed_out = 0;
    failed = 0;
    cancelled = 0;
    duplicate_responses = 0;
    late_responses = 0;
    malformed_responses = 0;
    parse_errors = 0;
    correlation_misses = 0;
    active_probes = 0;
    peak_active_probes = 0;
    current_parallelism = 0;
    maximum_observed_parallelism = 0;
    current_rtt_ms = none;
    minimum_rtt_ms = none;
    maximum_rtt_ms = none;
    srtt_ms = none;
    rttvar_ms = none;
    rto_ms = none;
    average_rtt_ms = literal 0 1;
    rtt_samples = 0;
    timeout_count = 0;
    retry_count = 0;
    timeout_backoffs = 0;
    estimated_drop_rate = literal 0 1;
    started_at = epoch;
    completed_at = epoch;
    stage_duration_ms = replicate 6 (literal 0 1);
  }

  -- The smoothed round trip time, after the sample; `*rttvar_ms` is set with `srtt_ms`.
  next_srtt : ScanMetrics D → D → D
  next_srtt m value =
      or_else m.srtt_ms value λ srtt. add (mul (literal 7 8) srtt) (mul (literal 1 8) value)

  next_rttvar : ScanMetrics D → D → D
  next_rttvar m value = or_else m.srtt_ms (div value (literal 2 1)) λ srtt.
      add (mul (literal 3 4) (or_else m.rttvar_ms (literal 0 1) (λ v. v)))
        (mul (literal 1 4) (abs (sub srtt value)))

  -- `record_rtt`
  unfoldable pub record_rtt : ScanMetrics D → ℤ → ScanMetrics D
  unfolding next_srtt next_rttvar
  record_rtt m sample = record m {
    current_rtt_ms = some value;
    minimum_rtt_ms = some (or_else m.minimum_rtt_ms value (λ v. if lt value v then value else v));
    maximum_rtt_ms = some (or_else m.maximum_rtt_ms value (λ v. if lt v value then value else v));
    average_rtt_ms =
        if ltb m.rtt_samples word_max
        then add m.average_rtt_ms
            (div (sub value m.average_rtt_ms) (add (of_nat m.rtt_samples) (literal 1 1)))
        else m.average_rtt_ms;
    rtt_samples = saturate m.rtt_samples;
    srtt_ms = some (next_srtt m value);
    rttvar_ms = some (next_rttvar m value);
    rto_ms = some (add (next_srtt m value) (mul (literal 4 1) (next_rttvar m value)));
  }
    where
      value : D
      value = of_int (if ltz sample (pos 0) then pos 0 else sample)

      saturate : ℕ → ℕ
      saturate n = if ltb n word_max then increment n else n
