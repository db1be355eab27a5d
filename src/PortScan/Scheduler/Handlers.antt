-- ===== src/PortScan/Scheduler/Handlers.antt =====
-- What calls `PortScanScheduler` of src/portscan/port_scheduler.cpp after a submission: a response of
-- the transport, and the two timers of the io engine.
use skan.Base.{
  ℕ, zero, ℤ, pos, ltz, ◌-ℤ◌, Bool, true, false, ◌&&◌, ◌||◌, not, none, some, ◌∷◌, if◌then◌else◌,
  length,
}
use skan.Base.Assoc.{find, erase, modify}
use skan.Core.{memory_error}
use skan.ScanEngine.Rtt.{Precision, or_else}
use skan.ScanEngine.Metrics.{set_parallelism}
use skan.ScanEngine.Controller
use skan.ScanEngine.Controller.{TimingController}
use skan.ScanEngine.Scheduler.{cancel_timer, cancel_probe}
use skan.PortScan.Types.{
  tcp_connect, same_probe, PortState, unknown, error, ScanReason, conflicting_evidence,
}
use skan.PortScan.Probes.{PortResponse, Assessment, assessed, refuses}
use skan.PortScan.Scheduler.State.{Pending, PortScanScheduler, Surroundings}
use skan.PortScan.Scheduler.Pump.{pump}
use skan.PortScan.Scheduler.Attempt.{same_port_state, finish_attempt}

-- `PortScanClock::time_point{}`
abbrev pub is_epoch : ℤ → Bool
is_epoch (pos zero) = true
is_epoch _ = false

-- What a response makes of the entry that keeps the evidence until the timeout.
unfoldable pub weigh : PortState → ScanReason → ℤ → Pending → Pending
weigh state reason completed_at entry =
    or_else entry.candidate_state
      (record entry {
        candidate_state = some state;
        candidate_reason = reason;
        candidate_at = completed_at;
      })
      λ candidate.
        if not entry.conflict && not (same_port_state candidate state)
        then record entry {
          candidate_state = some unknown;
          candidate_reason = conflicting_evidence;
          candidate_at = completed_at;
          conflict = true;
        }
        else entry

module _ {D L : Type 0} (P : Precision D L) where
  open P use {double as F}
  open F use {literal, of_int, div, lt, to_int}

  -- A difference of time points in milliseconds, at least zero.
  abbrev pub elapsed_ms : ℤ → ℤ → D
  elapsed_ms from to =
      let ms = div (of_int (to -ℤ from)) (literal 1000000 1) in
      if lt ms (literal 0 1) then literal 0 1 else ms

  -- The controller is told of a response, and of the probes that are left.
  abbrev pub note_response : D → PortScanScheduler D L → PortScanScheduler D L
  note_response rtt_ms s = record s {
    timing = or_else s.timing none λ t.
        let t' = Controller.on_response P t (to_int rtt_ms) in
        some (record t' {
          metrics = set_parallelism t'.metrics (length s.pending) (length s.pending);
        });
  }

  -- The controller is told of a timeout, and of the probes that are left.
  abbrev pub note_timeout : PortScanScheduler D L → PortScanScheduler D L
  note_timeout s = record s {
    timing = or_else s.timing none λ t.
        let t' = Controller.on_timeout P t in
        some (record t' {
          metrics = set_parallelism t'.metrics (length s.pending) (length s.pending);
        });
  }

  -- `complete_pending`, of an entry that is pending.
  unfoldable pub complete_entry :
      Surroundings
      → ℕ
      → Pending
      → PortState
      → ScanReason
      → ℤ
      → PortScanScheduler D L
      → PortScanScheduler D L
  complete_entry e id entry state reason completed_at s =
      let rtt_ms = elapsed_ms entry.started_at completed_at in
      finish_attempt e entry.work state reason (some rtt_ms) (
        note_response rtt_ms (record s {
          pending = erase id s.pending;
          effects = cancel_probe id ∷ cancel_timer entry.timer_id ∷ s.effects;
        }))

  -- A response that is assessed, for an entry that is pending.
  unfoldable pub accept :
      Surroundings
      → PortResponse
      → Pending
      → Assessment
      → PortScanScheduler D L
      → PortScanScheduler D L
  unfolding complete_entry weigh
  accept e response entry (refuses status) s = s
  accept e response entry (assessed state reason) s =
      let completed_at = if is_epoch response.received_at then e.now else response.received_at in
      if ltz completed_at entry.started_at
      then s
      else if same_port_state state error || same_probe s.config.method tcp_connect
      then complete_entry e response.id entry state reason completed_at s
      else record s { pending = modify response.id (weigh state reason completed_at) s.pending }

  -- `receive`
  unfoldable pub receive :
      Surroundings → PortResponse → PortScanScheduler D L → PortScanScheduler D L
  unfolding accept
  receive e response s = or_else (find response.id s.pending) s λ entry.
      or_else s.probe s λ probe. accept e response entry (probe.assess response entry.submission) s

  -- `on_timeout`
  unfoldable pub on_timeout : Surroundings → ℕ → PortScanScheduler D L → PortScanScheduler D L
  on_timeout e id s = or_else (find id s.pending) s λ entry. or_else s.probe s λ probe.
      let s' = record s { pending = erase id s.pending; effects = cancel_probe id ∷ s.effects } in
      or_else entry.candidate_state
        (finish_attempt e entry.work probe.timeout_state probe.timeout_reason none
          (note_timeout s'))
        λ state.
          let rtt_ms = elapsed_ms entry.started_at entry.candidate_at in
          finish_attempt e entry.work state entry.candidate_reason (some rtt_ms)
            (note_response rtt_ms s')

module _ {D L : Type 0} where
  -- `on_retry_ready`; where the queue cannot grow, the work is gone.
  unfoldable pub on_retry_ready : Surroundings → ℕ → PortScanScheduler D L → PortScanScheduler D L
  on_retry_ready e id s = or_else (find id s.deferred_retries) s λ retry.
      let s' = record s { deferred_retries = erase id s.deferred_retries } in
      pump e.rounds (
        if e.pushed
        then record s' { queue = retry.work ∷ s.queue }
        else record s' { status = memory_error })
