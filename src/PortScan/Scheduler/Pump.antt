-- ===== src/PortScan/Scheduler/Pump.antt =====
-- `pump` of src/portscan/port_scheduler.cpp: the queued work goes out while there is room.
use skan.Base.{
  ℕ, ◌+◌, Bool, true, false, ◌&&◌, none, some, List, [], ◌∷◌, ltb, ◌==◌, if◌then◌else◌, length,
  increment, pos,
}
use skan.Base.Assoc.{find, emplace, erase}
use skan.Core.{StatusCode, permission_denied, invalid_argument, internal_error, memory_error, is_ok}
use skan.ScanEngine.Rtt.{or_else}
use skan.ScanEngine.Controller.{parallelism_limit, on_submitted}
use skan.ScanEngine.Scheduler.{
  OutOfMemory, cancel_timer, cancel_probe, at_schedule, at_emplace, at_submit,
}
use skan.PortScan.Types.{
  PortState, error, ScanReason, invalid_target, capability_unavailable, Protocol, tcp,
}
use skan.PortScan.Types
use skan.PortScan.Probes.{PortSubmission}
use skan.PortScan.Scheduler.State.{
  PortProbe, WorkItem, Pending, PortScanScheduler, Answer, append_terminal_result, stop_if_idle,
}

-- `submission_failure_reason`
unfoldable pub submission_failure_reason : StatusCode → ScanReason
submission_failure_reason permission_denied = capability_unavailable
submission_failure_reason invalid_argument = invalid_target
submission_failure_reason _ = Types.internal_error

-- What a failed `build` makes of the result.
abbrev pub build_failure_reason : StatusCode → ScanReason
build_failure_reason invalid_argument = invalid_target
build_failure_reason _ = Types.internal_error

-- The entry of a probe that goes out.
abbrev pub entry_of : Answer → WorkItem → PortSubmission → Pending
entry_of a work submission = record {
  work = work;
  submission = submission;
  started_at = a.now;
  timer_id = a.timer_id;
  candidate_state = none;
  candidate_reason = Types.internal_error;
  candidate_at = pos 0;
  conflict = false;
}

module _ {D L : Type 0} where
  -- `append_terminal_result` with `PortState::Error`, no round trip and the clock of the round.
  abbrev pub report_error :
      Answer → WorkItem → ScanReason → PortScanScheduler D L → PortScanScheduler D L
  report_error a work reason s = append_terminal_result a.stored a.now work error reason none s

  -- The `catch` of a round.
  unfoldable pub out_of_memory :
      Answer → ℕ → ℕ → WorkItem → PortScanScheduler D L → PortScanScheduler D L
  out_of_memory a timer id work s =
      record (report_error a work Types.internal_error (record s {
        pending = erase id s.pending;
        effects = cancel_timer timer ∷ cancel_probe id ∷ s.effects;
      })) { status = memory_error }

  -- The controller is told of a submission.
  abbrev pub note_submitted : PortScanScheduler D L → PortScanScheduler D L
  note_submitted s = record s {
    timing = or_else s.timing none (λ t. some (on_submitted t (length s.pending)));
  }

  -- The transport's answer, once the probe is pending.
  unfoldable pub answered :
      Answer → ℕ → WorkItem → PortScanScheduler D L → Bool × PortScanScheduler D L
  answered a id work s = if is_ok a.submit_status then (true, note_submitted s) else (
    false,
    record (report_error a work (submission_failure_reason a.submit_status) (record s {
      pending = erase id s.pending;
      effects = cancel_timer a.timer_id ∷ s.effects;
    })) { status = a.submit_status },
  )

  -- The submission to the transport, which an allocation may end.
  unfoldable pub submit_at :
      OutOfMemory → Answer → ℕ → WorkItem → PortScanScheduler D L → Bool × PortScanScheduler D L
  unfolding answered out_of_memory
  submit_at at_submit a id work s = (false, out_of_memory a a.timer_id id work s)
  submit_at _ a id work s = answered a id work s

  -- The body of the `try`, once the engine has given a timer.
  unfoldable pub register :
      Answer → ℕ → WorkItem → PortSubmission → PortScanScheduler D L → Bool × PortScanScheduler D L
  unfolding submit_at
  register a id work submission s =
      or_else (find id s.pending)
        (submit_at a.memory a id work
          (record s { pending = emplace id (entry_of a work submission) s.pending }))
        λ old. (
          false,
          record (report_error a work Types.internal_error
              (record s { effects = cancel_timer a.timer_id ∷ s.effects })) {
                status = internal_error;
              },
        )

  -- A round's failure to get a timer.
  unfoldable pub no_timer : Answer → WorkItem → PortScanScheduler D L → Bool × PortScanScheduler D L
  no_timer a work s =
      let s' = report_error a work Types.internal_error s in
      (false, if is_ok s'.status then record s' { status = internal_error } else s')

  -- The `try` of a round, by the allocation that fails in it: whether the loop goes on, and the state.
  unfoldable pub try_at :
      OutOfMemory
      → Answer
      → ℕ
      → WorkItem
      → PortSubmission
      → PortScanScheduler D L
      → Bool × PortScanScheduler D L
  unfolding out_of_memory register no_timer
  try_at at_schedule a id work submission s = (false, out_of_memory a 0 id work s)
  try_at at_emplace a id work submission s =
      if a.timer_id == 0 then no_timer a work s else (false, out_of_memory a a.timer_id id work s)
  try_at _ a id work submission s =
      if a.timer_id == 0 then no_timer a work s else register a id work submission s

  unfoldable pub try_submit :
      Answer → ℕ → WorkItem → PortSubmission → PortScanScheduler D L → Bool × PortScanScheduler D L
  unfolding try_at
  try_submit a id work submission s = try_at a.memory a id work submission s

  -- A round of the loop, on the work that the queue gave.
  unfoldable pub launch :
      PortProbe → Answer → WorkItem → PortScanScheduler D L → Bool × PortScanScheduler D L
  unfolding try_submit
  launch probe a work s =
      let (status, submission) = probe.build s.next_id work.host work.port in
      let s' = record s { next_id = increment s.next_id } in
      if is_ok status
      then try_submit a s.next_id work submission s'
      else (true, report_error a work (build_failure_reason status) s')

  -- The limit that `pump` computes before its loop.
  abbrev pub limit : PortScanScheduler D L → ℕ
  limit s =
      or_else s.timing s.config.max_outstanding λ t. parallelism_limit t s.config.max_outstanding

  -- The loop, which takes a work item off the queue in each round.
  unfoldable pub pump_loop :
      PortProbe
      → ℕ
      → (ℕ → Answer)
      → ℕ
      → List WorkItem
      → PortScanScheduler D L
      → PortScanScheduler D L
  unfolding launch
  pump_loop probe bound rounds i [] s = record s { queue = [] }
  pump_loop probe bound rounds i (work ∷ queue) s =
      elim (is_ok s.status && ltb (length s.pending) bound) [
        | false ↦ record s { queue = work ∷ queue }
        | true ↦
            let (go_on, s') = launch probe (rounds i) work s in
            elim go_on [
              | true ↦ pump_loop probe bound rounds (i + 1) queue s'
              | false ↦ record s' { queue = queue }
            ]
      ]

  -- `pump`. It is called only with a probe, which `submit` asks for.
  unfoldable pub pump : (ℕ → Answer) → PortScanScheduler D L → PortScanScheduler D L
  unfolding pump_loop
  pump rounds s =
      or_else s.probe s λ probe. stop_if_idle (pump_loop probe (limit s) rounds 0 s.queue s)
