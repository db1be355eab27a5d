-- ===== src/PortScan/Scheduler/State.antt =====
-- The state of `PortScanScheduler`, in include/portscan/port_scheduler.hpp, what it is given by its
-- surroundings, and the functions of src/portscan/port_scheduler.cpp that only record a result.
--
-- The virtual functions of `PortProbe` are the fields of a record, so that the scheduler works with
-- every probe. What the io engine, the transport, the clock and the allocator answer in one call is a
-- value of `Surroundings`.
use skan.Base.{
  ℕ, ℤ, Bool, true, false, ◌&&◌, not, Option, List, [], ◌∷◌, ◌++◌, ltb, ◌==◌, if◌then◌else◌, length,
}
use skan.Base.Assoc.{Assoc}
use skan.Core.{StatusCode, memory_error}
use skan.ScanEngine.Timing.{TimingProfile}
use skan.ScanEngine.Controller.{TimingController}
use skan.ScanEngine.Scheduler.{Effect, stop_engine, OutOfMemory}
use skan.PortScan.Types.{Port, ScanProbeType, probe_number, PortState, ScanReason}
use skan.PortScan.Probes.{PortSubmission, PortResponse, Assessment, same_text}

-- `core::Host`, as far as the scheduler reads it.
pub record Host : Type 0 where
  pub address : List ℕ
  pub ip_address : Option ℕ

-- `class PortProbe`
pub record PortProbe : Type 0 where
  pub build : ℕ → Host → Port → StatusCode × PortSubmission
  pub timeout_state : PortState
  pub timeout_reason : ScanReason
  pub assess : PortResponse → PortSubmission → Assessment

-- `struct PortScanConfig`
pub record PortScanConfig (D : Type 0) : Type 0 where
  pub method : ScanProbeType
  pub timeout : ℤ
  pub max_outstanding : ℕ
  pub adaptive_timing : Bool
  pub timing_profile : TimingProfile D
  pub retries : ℕ
  pub retry_delay : ℤ

-- `struct PortResult`, without the name of the service probe.
pub record PortResult (D : Type 0) : Type 0 where
  pub target : List ℕ
  pub port : Port
  pub state : PortState
  pub probe : ScanProbeType
  pub reason : ScanReason
  pub rtt_ms : Option D
  pub timestamp : ℤ
  pub retry_count : ℕ

-- `struct WorkItem`
pub record WorkItem : Type 0 where
  pub host : Host
  pub port : Port
  pub retry_count : ℕ
  pub closed_observations : ℕ
  pub filtered_observations : ℕ
  pub error_observations : ℕ

-- `struct Pending`
pub record Pending : Type 0 where
  pub work : WorkItem
  pub submission : PortSubmission
  pub started_at : ℤ
  pub timer_id : ℕ
  pub candidate_state : Option PortState
  pub candidate_reason : ScanReason
  pub candidate_at : ℤ
  pub conflict : Bool

-- `struct DeferredRetry`
pub record DeferredRetry : Type 0 where
  pub work : WorkItem
  pub timer_id : ℕ

-- `class PortScanScheduler`
pub record PortScanScheduler (D L : Type 0) : Type 0 where
  pub config : PortScanConfig D
  pub probe : Option PortProbe
  pub timing : Option (TimingController D L)
  pub queue : List WorkItem
  pub pending : Assoc Pending
  pub deferred_retries : Assoc DeferredRetry
  pub results : List (PortResult D)
  pub results_sorted : Bool
  pub next_id : ℕ
  pub next_retry_id : ℕ
  pub status : StatusCode
  pub submitted : Bool
  pub effects : List Effect

-- What the surroundings answer in one round of `pump`; `stored` says whether a result can be
-- allocated.
pub record Answer : Type 0 where
  pub now : ℤ
  pub timer_id : ℕ
  pub submit_status : StatusCode
  pub memory : OutOfMemory
  pub stored : Bool

-- What they answer in one call from outside: the clock, whether a result can be allocated, the timer
-- of a retry, whether a retry can be allocated and whether the queue can, and the rounds of `pump`.
pub record Surroundings : Type 0 where
  pub now : ℤ
  pub stored : Bool
  pub retry_timer : ℕ
  pub retry_stored : Bool
  pub pushed : Bool
  pub rounds : ℕ → Answer

-- A work item that has not been tried.
abbrev pub new_work : Host → Port → WorkItem
new_work host port = record {
  host = host;
  port = port;
  retry_count = 0;
  closed_observations = 0;
  filtered_observations = 0;
  error_observations = 0;
}

-- `operator<` on strings, by bytes.
abbrev pub text_less : List ℕ → List ℕ → Bool
text_less as_ [] = false
text_less [] (b ∷ bs) = true
text_less (a ∷ as_) (b ∷ bs) = let rest = text_less as_ bs in if a == b then rest else ltb a b

module _ {D : Type 0} where
  -- `result_less`
  unfoldable pub result_less : PortResult D → PortResult D → Bool
  result_less a b =
      if not (same_text a.target b.target)
      then text_less a.target b.target
      else if not (a.port.number == b.port.number)
      then ltb a.port.number b.port.number
      else ltb (probe_number a.probe) (probe_number b.probe)

  -- `std::sort`, as insertion sort.
  unfoldable pub insert_result : PortResult D → List (PortResult D) → List (PortResult D)
  insert_result r [] = r ∷ []
  insert_result r (q ∷ qs) =
      let rest = insert_result r qs in if result_less q r then q ∷ rest else r ∷ q ∷ qs

  unfoldable pub sort : List (PortResult D) → List (PortResult D)
  unfolding insert_result
  sort [] = []
  sort (r ∷ rs) = insert_result r (sort rs)

module _ {D L : Type 0} where
  -- `append_terminal_result`
  unfoldable pub append_terminal_result :
      Bool
      → ℤ
      → WorkItem
      → PortState
      → ScanReason
      → Option D
      → PortScanScheduler D L
      → PortScanScheduler D L
  append_terminal_result stored now work state reason rtt_ms s =
      if stored
      then record s {
        results =
            s.results
            ++ (record {
              target = work.host.address;
              port = work.port;
              state = state;
              probe = s.config.method;
              reason = reason;
              rtt_ms = rtt_ms;
              timestamp = now;
              retry_count = work.retry_count;
            }
                ∷ []);
        results_sorted = false;
      }
      else record s { status = memory_error }

  -- `sort_results`
  unfoldable pub sort_results : PortScanScheduler D L → PortScanScheduler D L
  unfolding sort
  sort_results s =
      if s.results_sorted then s else record s { results = sort s.results; results_sorted = true }

  -- `complete`
  unfoldable pub is_complete : PortScanScheduler D L → Bool
  is_complete s =
      s.submitted && length s.queue == 0 && length s.pending == 0 && length s.deferred_retries == 0

  -- `stop_if_idle`
  unfoldable pub stop_if_idle : PortScanScheduler D L → PortScanScheduler D L
  unfolding is_complete
  stop_if_idle s = if is_complete s then record s { effects = stop_engine ∷ s.effects } else s
