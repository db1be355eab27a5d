-- ===== src/PortScan/Scheduler/Failure.antt =====
-- What src/portscan/port_scheduler.cpp does once its status is an error and work is queued.
use skan.Base.{
  ℕ, ℤ, ltz, ◌≡◌, refl, Bool, true, false, ◌&&◌, ◌||◌, Option, none, some, List, [], ◌∷◌, length,
  arith, ltb, ◌==◌, if◌then◌else◌, Bool-cases, Option-cases, inl, inr,
}
use skan.Base.Assoc.{find, erase}
use skan.Core.{memory_error, is_ok}
use skan.ScanEngine.Rtt.{Precision, or_else}
use skan.PortScan.Types
use skan.PortScan.Types.{tcp_connect, same_probe, PortState, error, ScanReason}
use skan.PortScan.Probes.{PortResponse, Assessment, assessed, refuses}
use skan.PortScan.Scheduler.State.{
  Pending, WorkItem, PortProbe, PortScanScheduler, Answer, Surroundings, append_terminal_result,
  is_complete, stop_if_idle,
}
use skan.PortScan.Scheduler.Pump.{limit, pump_loop, pump}
use skan.PortScan.Scheduler.Attempt.{
  Verdict, retries, reports, same_port_state, decide, max_retries, defer_retry, settle,
  finish_attempt,
}
use skan.PortScan.Scheduler.Handlers.{
  is_epoch, complete_entry, accept, receive, on_timeout, on_retry_ready,
}
use skan.PortScan.Scheduler.Run.{Call, responds, times_out, retry_is_ready, act, run_calls}

module _ {D L : Type 0} where
  -- The status is an error and work is queued.
  abbrev pub HasFailed : PortScanScheduler D L → Type 0
  HasFailed s = (is_ok s.status ≡ false) × (length s.queue == 0) ≡ false

  complete-HasFailed : (s : PortScanScheduler D L) → HasFailed s → is_complete s ≡ false
  unfolding is_complete
  complete-HasFailed s (f, g) = ground arith

  stop_if_idle-HasFailed : (s : PortScanScheduler D L) → HasFailed s → HasFailed (stop_if_idle s)
  unfolding stop_if_idle
  stop_if_idle-HasFailed s h = rw (complete-HasFailed s h) h

  pump_loop-HasFailed :
      (probe : PortProbe) (most : ℕ) (rounds : ℕ → Answer) (queue : List WorkItem)
      (s : PortScanScheduler D L)
      → is_ok s.status ≡ false
      → (length queue == 0) ≡ false
      → HasFailed (pump_loop probe most rounds 0 queue s)
  unfolding pump_loop
  pump_loop-HasFailed probe most rounds [] s f g = absurd (ground arith)
  pump_loop-HasFailed probe most rounds (work ∷ queue) s f g =
      let stays : (is_ok s.status && ltb (length s.pending) most) ≡ false = ground arith in
      rw (pump_loop, stays) (f, g)

  HasFailed-or_else :
      {A : Type 0} (o : Option A) (s : PortScanScheduler D L) (f : A → PortScanScheduler D L)
      → HasFailed s
      → ((a : A) → HasFailed (f a))
      → HasFailed (or_else o s f)
  HasFailed-or_else none s f h k = h
  HasFailed-or_else (some a) s f h k = k a

  pump-HasFailed :
      (rounds : ℕ → Answer) (s : PortScanScheduler D L) → HasFailed s → HasFailed (pump rounds s)
  unfolding pump
  pump-HasFailed rounds s (f, g) =
      HasFailed-or_else s.probe s _ (f, g)
        λ probe.
          stop_if_idle-HasFailed (pump_loop probe (limit s) rounds 0 s.queue s)
            (pump_loop-HasFailed probe (limit s) rounds s.queue s f g)

  append-HasFailed :
      (stored : Bool) (now : ℤ) (work : WorkItem) (state : PortState) (reason : ScanReason)
      (rtt : Option D) (s : PortScanScheduler D L)
      → HasFailed s
      → HasFailed (append_terminal_result stored now work state reason rtt s)
  unfolding append_terminal_result
  append-HasFailed true now work state reason rtt s h = h
  append-HasFailed false now work state reason rtt s (f, g) = (refl, g)

  module _ (e : Surroundings) where
    defer_retry-HasFailed :
        (work : WorkItem) (s : PortScanScheduler D L)
        → HasFailed s
        → HasFailed (defer_retry e work s).1
    unfolding defer_retry
    defer_retry-HasFailed work s (p, q) = elim (Bool-cases (s.next_retry_id == 0)) [
      | inl f ↦ rw (f, defer_retry) (refl, q)
      | inr f ↦ elim (Bool-cases (e.retry_timer == 0)) [
        | inl g ↦ rw (f, g, defer_retry) (refl, q)
        | inr g ↦ elim (Option-cases (find s.next_retry_id s.deferred_retries)) [
          | inr (old, h) ↦ rw (f, g, h, defer_retry) (refl, q)
          | inl h ↦ elim (Bool-cases e.retry_stored) [
            | inl k ↦ rw (f, g, h, k, defer_retry) (p, q)
            | inr k ↦ rw (f, g, h, k, defer_retry) (refl, q)
          ]
        ]
      ]
    ]

    settle_retry-HasFailed :
        (work : WorkItem) (rtt : Option D) (out : Bool × PortScanScheduler D L)
        → HasFailed out.1
        → HasFailed (
            if out.0
            then out.1
            else append_terminal_result e.stored e.now work error Types.internal_error rtt out.1)
    settle_retry-HasFailed work rtt (true, s) h = h
    settle_retry-HasFailed work rtt (false, s) h =
        append-HasFailed e.stored e.now work error Types.internal_error rtt s h

    settle-HasFailed :
        (rtt : Option D) (verdict : Verdict) (s : PortScanScheduler D L)
        → HasFailed s
        → HasFailed (settle e rtt verdict s)
    unfolding settle
    settle-HasFailed rtt (reports work state reason) s h =
        append-HasFailed e.stored e.now work state reason rtt s h
    settle-HasFailed rtt (retries work) s h =
        settle_retry-HasFailed work rtt (defer_retry e work s) (defer_retry-HasFailed work s h)

    finish_attempt-HasFailed :
        (work : WorkItem) (state : PortState) (reason : ScanReason) (rtt : Option D)
        (s : PortScanScheduler D L)
        → HasFailed s
        → HasFailed (finish_attempt e work state reason rtt s)
    unfolding finish_attempt
    finish_attempt-HasFailed work state reason rtt s h =
        let verdict = decide s.config.method (max_retries s) work state reason in
        pump-HasFailed e.rounds (settle e rtt verdict s) (settle-HasFailed rtt verdict s h)

    on_retry_ready-HasFailed :
        (id : ℕ) (s : PortScanScheduler D L) → HasFailed s → HasFailed (on_retry_ready e id s)
    unfolding on_retry_ready
    on_retry_ready-HasFailed id s (f, g) =
        HasFailed-or_else (find id s.deferred_retries) s _ (f, g)
          λ retry.
            let s' = record s { deferred_retries = erase id s.deferred_retries } in
            let queued = record s' { queue = retry.work ∷ s.queue } in
            let lost = record s' { status = memory_error } in
            elim (Bool-cases e.pushed) [
              | inl k ↦ rw k (pump-HasFailed e.rounds queued (f, ground arith))
              | inr k ↦ rw k (pump-HasFailed e.rounds lost (refl, g))
            ]

module _ {D L : Type 0} (P : Precision D L) where
  accept-HasFailed :
      (e : Surroundings) (response : PortResponse) (entry : Pending) (assessment : Assessment)
      (s : PortScanScheduler D L)
      → HasFailed s
      → HasFailed (accept P e response entry assessment s)
  unfolding accept complete_entry
  accept-HasFailed e response entry (refuses status) s h = h
  accept-HasFailed e response entry (assessed state reason) s h =
      let at = if is_epoch response.received_at then e.now else response.received_at in
      let at_once = same_port_state state error || same_probe s.config.method tcp_connect in
      elim (Bool-cases (ltz at entry.started_at)) [
        | inl f ↦ rw (f, accept) h
        | inr f ↦ elim (Bool-cases at_once) [
          | inl g ↦ rw (f, g, accept) (finish_attempt-HasFailed e entry.work state reason _ _ h)
          | inr g ↦ rw (f, g, accept) h
        ]
      ]

  act-HasFailed : (call : Call) (s : PortScanScheduler D L) → HasFailed s → HasFailed (act P call s)
  unfolding receive on_timeout
  act-HasFailed (responds e response) s h =
      HasFailed-or_else (find response.id s.pending) s _ h λ entry.
        HasFailed-or_else s.probe s _ h
          λ probe. accept-HasFailed e response entry (probe.assess response entry.submission) s h
  act-HasFailed (times_out e id) s h = HasFailed-or_else (find id s.pending) s _ h λ entry.
      HasFailed-or_else s.probe s _ h λ probe.
        HasFailed-or_else entry.candidate_state _ _
          (finish_attempt-HasFailed e entry.work probe.timeout_state probe.timeout_reason none _ h)
          λ state. finish_attempt-HasFailed e entry.work state entry.candidate_reason _ _ h
  act-HasFailed (retry_is_ready e id) s h = on_retry_ready-HasFailed e id s h

  run_calls-HasFailed :
      (calls : List Call) (s : PortScanScheduler D L)
      → HasFailed s
      → HasFailed (run_calls P calls s)
  run_calls-HasFailed [] s h = h
  run_calls-HasFailed (call ∷ calls) s h =
      run_calls-HasFailed calls (act P call s) (act-HasFailed call s h)

  -- Once the status is an error while work is queued, no sequence of responses, timeouts and retries
  -- empties the queue or restores the status, so that the scheduler is never complete.
  pub failure_never_completes :
      (calls : List Call) (s : PortScanScheduler D L)
      → is_ok s.status ≡ false
      → (length s.queue == 0) ≡ false
      → HasFailed (run_calls P calls s) × is_complete (run_calls P calls s) ≡ false
  failure_never_completes calls s f g =
      let h = run_calls-HasFailed calls s (f, g) in (h, complete-HasFailed (run_calls P calls s) h)
