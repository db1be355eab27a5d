-- ===== src/PortScan/Scheduler/Attempt.antt =====
-- How src/portscan/port_scheduler.cpp ends an attempt: `should_confirm_negative`, `finish_attempt`
-- and `defer_retry`.
use skan.Base.{
  ℕ, Bool, true, false, ◌&&◌, ◌||◌, not, Option, none, some, ◌∷◌, ltb, ◌==◌, if◌then◌else◌,
  increment,
}
use skan.Base.Assoc.{find, emplace}
use skan.Core.{internal_error, memory_error}
use skan.ScanEngine.Rtt.{or_else}
use skan.ScanEngine.Controller.{TimingController}
use skan.ScanEngine.Scheduler.{cancel_timer}
use skan.PortScan.Types.{
  ScanProbeType, tcp_connect, same_probe, PortState, closed, filtered, unknown, error, state_number,
  ScanReason, same_reason, connection_refused, timeout, ack_timeout, conflicting_evidence,
}
use skan.PortScan.Types
use skan.PortScan.Scheduler.State.{
  WorkItem, DeferredRetry, PortScanScheduler, Surroundings, append_terminal_result,
}
use skan.PortScan.Scheduler.Pump.{pump}

abbrev pub same_port_state : PortState → PortState → Bool
same_port_state a b = state_number a == state_number b

-- `should_confirm_negative`
unfoldable pub should_confirm_negative : ScanProbeType → PortState → ScanReason → Bool
should_confirm_negative probe state reason =
    if not (same_probe probe tcp_connect)
    then false
    else (same_port_state state closed && same_reason reason connection_refused)
      || (same_port_state state filtered && same_reason reason timeout)

-- What `finish_attempt` decides: to try the work again, or to report a state and a reason.
pub data Verdict : Type 0 where
  retries : WorkItem → Verdict
  reports : WorkItem → PortState → ScanReason → Verdict

-- The observation that is counted, and how often it has been made.
abbrev pub observe : WorkItem → PortState → WorkItem × ℕ
observe work closed = (
  record work { closed_observations = increment work.closed_observations },
  increment work.closed_observations,
)
observe work filtered = (
  record work { filtered_observations = increment work.filtered_observations },
  increment work.filtered_observations,
)
observe work _ = (
  record work { error_observations = increment work.error_observations },
  increment work.error_observations,
)

-- The branches of `finish_attempt`.
unfoldable pub decide : ScanProbeType → ℕ → WorkItem → PortState → ScanReason → Verdict
unfolding should_confirm_negative
decide method max_retries work state reason =
    if should_confirm_negative method state reason
    then (let (seen, matching) = observe work state in
        if ltb 0 seen.closed_observations && ltb 0 seen.filtered_observations
        then reports seen unknown conflicting_evidence
        else if ltb matching 2 && ltb work.retry_count max_retries
        then retries seen
        else reports seen state reason)
    else if (same_reason reason timeout || same_reason reason ack_timeout)
        && ltb work.retry_count max_retries
    then retries work
    else reports work state reason

module _ {D L : Type 0} where
  -- The retries that an item is allowed.
  abbrev pub max_retries : PortScanScheduler D L → ℕ
  max_retries s = or_else s.timing s.config.retries (λ t. t.profile.max_retries)

  -- The controller's count of retries.
  abbrev pub note_retry : TimingController D L → TimingController D L
  note_retry t = record t {
    metrics = record t.metrics { retry_count = increment t.metrics.retry_count };
  }

  -- `defer_retry`
  unfoldable pub defer_retry :
      Surroundings → WorkItem → PortScanScheduler D L → Bool × PortScanScheduler D L
  defer_retry e work s =
      if s.next_retry_id == 0
      then (false, record s { status = internal_error })
      else if e.retry_timer == 0
      then (false, record s' { status = internal_error })
      else or_else (find s.next_retry_id s.deferred_retries)
          (if e.retry_stored
            then (
              true,
              record s' {
                deferred_retries = emplace s.next_retry_id entry s.deferred_retries;
                timing = or_else s.timing none (λ t. some (note_retry t));
              },
            )
            else (
              false,
              record s' { status = memory_error; effects = cancel_timer e.retry_timer ∷ s.effects },
            ))
          λ old. (
            false,
            record s' { status = internal_error; effects = cancel_timer e.retry_timer ∷ s.effects },
          )
    where
      s' : PortScanScheduler D L
      s' = record s { next_retry_id = increment s.next_retry_id }

      entry : DeferredRetry
      entry = record {
        work = record work { retry_count = increment work.retry_count };
        timer_id = e.retry_timer;
      }

  -- What `finish_attempt` does with its verdict, before `pump`.
  unfoldable pub settle :
      Surroundings → Option D → Verdict → PortScanScheduler D L → PortScanScheduler D L
  unfolding defer_retry
  settle e rtt_ms (reports work state reason) s =
      append_terminal_result e.stored e.now work state reason rtt_ms s
  settle e rtt_ms (retries work) s =
      let (granted, s') = defer_retry e work s in
      if granted
      then s'
      else append_terminal_result e.stored e.now work error Types.internal_error rtt_ms s'

  -- `finish_attempt`
  unfoldable pub finish_attempt :
      Surroundings
      → WorkItem
      → PortState
      → ScanReason
      → Option D
      → PortScanScheduler D L
      → PortScanScheduler D L
  unfolding settle decide
  finish_attempt e work state reason rtt_ms s =
      pump e.rounds (settle e rtt_ms (decide s.config.method (max_retries s) work state reason) s)
