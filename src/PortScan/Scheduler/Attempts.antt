-- ===== src/PortScan/Scheduler/Attempts.antt =====
-- The attempts of src/portscan/port_scheduler.cpp are bounded: every item has one attempt and as many
-- retries as the scheduler allows, and no call gives it more.
use skan.Base.{
  ℕ, suc, ◌+◌, ◌-◌, ◌≤◌, ℤ, ◌≡◌, increment, refl, Bool, true, false, ◌&&◌, Option, none, some, List,
  [], ◌∷◌, length, arith, ltb, ◌==◌, if◌then◌else◌, Bool-cases, Option-cases, inl, inr,
}
use skan.Base.Assoc.{find, emplace, erase, sum_of, sum_of-emplace, sum_of-erase_le}
use skan.Core.{is_ok}
use skan.ScanEngine.Rtt.{or_else}
use skan.ScanEngine.Scheduler.{OutOfMemory, at_schedule, at_emplace, at_submit, at_next, never}
use skan.PortScan.Types
use skan.PortScan.Types.{Port, ScanProbeType, PortState, ScanReason}
use skan.PortScan.Probes.{PortSubmission}
use skan.PortScan.Scheduler.State.{
  PortProbe, WorkItem, Pending, DeferredRetry, PortScanScheduler, Answer, append_terminal_result,
  stop_if_idle, is_complete,
}
use skan.PortScan.Scheduler.Pump.{
  entry_of, build_failure_reason, report_error, out_of_memory, answered, submit_at, register,
  no_timer, try_at, try_submit, launch, limit, pump_loop, pump,
}

module _ (bound : ℕ) where
  -- The attempts that are left to an item.
  abbrev pub left : WorkItem → ℕ
  left work = suc (bound - work.retry_count)

  abbrev pub queue_left : List WorkItem → ℕ
  queue_left [] = 0
  queue_left (work ∷ queue) = left work + queue_left queue

  abbrev pub pending_left : Pending → ℕ
  pending_left entry = left entry.work

  abbrev pub deferred_left : DeferredRetry → ℕ
  deferred_left retry = left retry.work

  module _ {D L : Type 0} where
    -- Those of the items that are pending or put off.
    abbrev pub held : PortScanScheduler D L → ℕ
    held s = sum_of pending_left s.pending + sum_of deferred_left s.deferred_retries

    -- Those of all the items.
    abbrev pub attempts : PortScanScheduler D L → ℕ
    attempts s = queue_left s.queue + held s

    held-append :
        (stored : Bool) (now : ℤ) (work : WorkItem) (state : PortState) (reason : ScanReason)
        (rtt : Option D) (s : PortScanScheduler D L)
        → held (append_terminal_result stored now work state reason rtt s) ≡ held s
    unfolding append_terminal_result
    held-append true now work state reason rtt s = refl
    held-append false now work state reason rtt s = refl

    pub attempts-append :
        (stored : Bool) (now : ℤ) (work : WorkItem) (state : PortState) (reason : ScanReason)
        (rtt : Option D) (s : PortScanScheduler D L)
        → attempts (append_terminal_result stored now work state reason rtt s) ≡ attempts s
    unfolding append_terminal_result
    attempts-append true now work state reason rtt s = refl
    attempts-append false now work state reason rtt s = refl

    -- A report after the probe has left the pending ones.
    held-drop :
        (a : Answer) (id : ℕ) (work : WorkItem) (reason : ScanReason) (s t : PortScanScheduler D L)
        → t.pending ≡ erase id s.pending
        → t.deferred_retries ≡ s.deferred_retries
        → held (report_error a work reason t) ≤ held s
    held-drop a id work reason s t h k =
        rw (held-append a.stored a.now work Types.error reason none t, h, k)
          (omega (arith, sum_of-erase_le pending_left id s.pending))

    held-out_of_memory :
        (a : Answer) (timer id : ℕ) (work : WorkItem) (s : PortScanScheduler D L)
        → held (out_of_memory a timer id work s) ≤ held s
    unfolding out_of_memory
    held-out_of_memory a timer id work s =
        held-drop a id work Types.internal_error s
          (record s { pending = erase id s.pending; effects = _ }) refl refl

    held-answered :
        (a : Answer) (id : ℕ) (work : WorkItem) (s : PortScanScheduler D L)
        → held (answered a id work s).1 ≤ held s
    unfolding answered
    held-answered a id work s = elim (Bool-cases (is_ok a.submit_status)) [
      | inl e ↦ rw e (omega arith)
      | inr e ↦ rw e (
          held-drop a id work _ s (record s { pending = erase id s.pending; effects = _ }) refl
            refl)
    ]

    held-submit_at :
        (m : OutOfMemory) (a : Answer) (id : ℕ) (work : WorkItem) (s : PortScanScheduler D L)
        → held (submit_at m a id work s).1 ≤ held s
    unfolding submit_at
    held-submit_at at_schedule a id work s = held-answered a id work s
    held-submit_at at_emplace a id work s = held-answered a id work s
    held-submit_at at_submit a id work s = held-out_of_memory a a.timer_id id work s
    held-submit_at at_next a id work s = held-answered a id work s
    held-submit_at never a id work s = held-answered a id work s

    held-register :
        (a : Answer) (id : ℕ) (work : WorkItem) (submission : PortSubmission)
        (s : PortScanScheduler D L)
        → held (register a id work submission s).1 ≤ left work + held s
    unfolding register
    held-register a id work submission s = elim (Option-cases (find id s.pending)) [
      | inr (old, e) ↦
          rw
            (
              e,
              held-append a.stored a.now work Types.error Types.internal_error none
                  (record s { effects = _ }),
            )
            (omega arith)
      | inl e ↦
          let entry = entry_of a work submission in
          let s' = record s { pending = emplace id entry s.pending } in
          rw e (
            omega (
              arith,
              held-submit_at a.memory a id work s',
              sum_of-emplace pending_left id entry s.pending,
            ))
    ]

    held-no_timer :
        (a : Answer) (work : WorkItem) (s : PortScanScheduler D L)
        → held (no_timer a work s).1 ≡ held s
    unfolding no_timer
    held-no_timer a work s =
        let h = held-append a.stored a.now work Types.error Types.internal_error none s in
        elim (Bool-cases (is_ok (report_error a work Types.internal_error s).status)) [
          | inl e ↦ rw e h
          | inr e ↦ rw e h
        ]

    held-late :
        (a : Answer) (id : ℕ) (work : WorkItem) (submission : PortSubmission)
        (s : PortScanScheduler D L)
        → held (if a.timer_id == 0 then no_timer a work s else register a id work submission s).1
          ≤ left work + held s
    held-late a id work submission s = elim (Bool-cases (a.timer_id == 0)) [
      | inl e ↦ rw e (omega (arith, held-no_timer a work s))
      | inr e ↦ rw e (held-register a id work submission s)
    ]

    held-try_at :
        (m : OutOfMemory) (a : Answer) (id : ℕ) (work : WorkItem) (submission : PortSubmission)
        (s : PortScanScheduler D L)
        → held (try_at m a id work submission s).1 ≤ left work + held s
    unfolding try_at
    held-try_at at_schedule a id work submission s = omega (arith, held-out_of_memory a 0 id work s)
    held-try_at at_emplace a id work submission s = elim (Bool-cases (a.timer_id == 0)) [
      | inl e ↦ rw e (omega (arith, held-no_timer a work s))
      | inr e ↦ rw e (omega (arith, held-out_of_memory a a.timer_id id work s))
    ]
    held-try_at at_submit a id work submission s = held-late a id work submission s
    held-try_at at_next a id work submission s = held-late a id work submission s
    held-try_at never a id work submission s = held-late a id work submission s

    held-launch :
        (probe : PortProbe) (a : Answer) (work : WorkItem) (s : PortScanScheduler D L)
        → held (launch probe a work s).1 ≤ left work + held s
    unfolding launch try_submit
    held-launch probe a work s =
        let (status, submission) = probe.build s.next_id work.host work.port in
        let s' = record s { next_id = increment s.next_id } in
        elim (Bool-cases (is_ok (probe.build s.next_id work.host work.port).0)) [
          | inl e ↦ rw e (held-try_at a.memory a s.next_id work submission s')
          | inr e ↦ rw e (
              omega (
                arith,
                held-append a.stored a.now work Types.error (build_failure_reason status) none s',
              ))
        ]

    held-pump_loop :
        (probe : PortProbe) (most : ℕ) (rounds : ℕ → Answer) (i : ℕ) (queue : List WorkItem)
        (s : PortScanScheduler D L)
        → attempts (pump_loop probe most rounds i queue s) ≤ queue_left queue + held s
    unfolding pump_loop
    held-pump_loop probe most rounds i [] s = omega arith
    held-pump_loop probe most rounds i (work ∷ queue) s =
        let one = held-launch probe (rounds i) work s in
        let rest =
          held-pump_loop probe most rounds (i + 1) queue (launch probe (rounds i) work s).1 in
        elim (Bool-cases (is_ok s.status && ltb (length s.pending) most)) [
          | inr e ↦ rw (pump_loop, e) (omega arith)
          | inl e ↦ elim (Bool-cases (launch probe (rounds i) work s).0) [
            | inl f ↦ rw (pump_loop, e, f) (omega (arith, one, rest))
            | inr f ↦ rw (pump_loop, e, f) (omega (arith, one))
          ]
        ]

    pub attempts-stop_if_idle : (s : PortScanScheduler D L) → attempts (stop_if_idle s) ≡ attempts s
    unfolding stop_if_idle
    attempts-stop_if_idle s = elim (Bool-cases (is_complete s)) [
      | inl e ↦ rw e refl
      | inr e ↦ rw e refl
    ]

    -- A branch on an option, by its cases.
    pub attempts-or_else :
        {A : Type 0} (o : Option A) (s : PortScanScheduler D L) (f : A → PortScanScheduler D L)
        (n : ℕ)
        → attempts s ≤ n
        → ((a : A) → o ≡ some a → attempts (f a) ≤ n)
        → attempts (or_else o s f) ≤ n
    attempts-or_else none s f n h k = h
    attempts-or_else (some a) s f n h k = k a refl

    pub attempts-pump :
        (rounds : ℕ → Answer) (s : PortScanScheduler D L) → attempts (pump rounds s) ≤ attempts s
    unfolding pump
    attempts-pump rounds s = attempts-or_else s.probe s _ (attempts s) (omega arith) λ probe e.
        omega (
          arith,
          attempts-stop_if_idle (pump_loop probe (limit s) rounds 0 s.queue s),
          held-pump_loop probe (limit s) rounds 0 s.queue s,
        )
