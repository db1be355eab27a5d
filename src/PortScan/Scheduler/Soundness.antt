-- ===== src/PortScan/Scheduler/Soundness.antt =====
-- `pump` of src/portscan/port_scheduler.cpp keeps what is reported and the evidence meaningful.
use skan.Base.{
  ℕ, ◌+◌, ℤ, ◌≡◌, increment, refl, Bool, true, false, ◌&&◌, Option, none, some, List, [], ◌∷◌,
  length, ltb, ◌==◌, if◌then◌else◌, Bool-cases, Option-cases, inl, inr,
}
use skan.Base.Assoc.{find, emplace, erase}
use skan.Core.{is_ok}
use skan.ScanEngine.Rtt.{or_else}
use skan.ScanEngine.Scheduler.{OutOfMemory, at_schedule, at_emplace, at_submit, at_next, never}
use skan.PortScan.Types
use skan.PortScan.Types.{
  ScanProbeType, udp_probe, same_probe, PortState, error, ScanReason, tcp,
  valid_port_result_semantics,
}
use skan.PortScan.Probes.{PortSubmission}
use skan.PortScan.Scheduler.State.{
  PortProbe, WorkItem, PortScanScheduler, Answer, append_terminal_result, stop_if_idle, is_complete,
}
use skan.PortScan.Scheduler.Pump.{
  submission_failure_reason, build_failure_reason, entry_of, report_error, out_of_memory, answered,
  submit_at, register, no_timer, try_at, try_submit, launch, limit, pump_loop, pump,
}
use skan.PortScan.Scheduler.Fitting.{
  Fits, ProbeSound, AllEvidenceFits, AllFit, AllFit-append, erase-AllEvidenceFits,
  emplace-AllEvidenceFits, internal_error-Fits, submission_failure_reason-Fits,
  build_failure_reason-Fits,
}

module _ {D L : Type 0} where
  -- What is reported and kept fits the method, which is not UDP's, and the probe is sound.
  abbrev pub AllSound : PortScanScheduler D L → Type 0
  AllSound s =
      AllFit s.results
      × (AllEvidenceFits s.config.method s.pending
          × (ProbeSound s.config.method s.probe × same_probe s.config.method udp_probe ≡ false))

  pub append-AllSound :
      (stored : Bool) (now : ℤ) (work : WorkItem) (state : PortState) (reason : ScanReason)
      (rtt : Option D) (s : PortScanScheduler D L)
      → Fits s.config.method state reason
      → AllSound s
      → AllSound (append_terminal_result stored now work state reason rtt s)
  unfolding append_terminal_result
  append-AllSound true now work state reason rtt s fits (r, rest) =
      (AllFit-append s.results (_ ∷ []) r (fits, tt), rest)
  append-AllSound false now work state reason rtt s fits h = h

  -- A report of the scheduler itself, in a state with the method and the probe of a sound one.
  report-AllSound :
      (a : Answer) (work : WorkItem) (reason : ScanReason) (s : PortScanScheduler D L)
      → Fits s.config.method error reason
      → AllSound s
      → AllSound (report_error a work reason s)
  report-AllSound a work reason s = append-AllSound a.stored a.now work error reason none s

  out_of_memory-AllSound :
      (a : Answer) (timer id : ℕ) (work : WorkItem) (s : PortScanScheduler D L)
      → AllSound s
      → AllSound (out_of_memory a timer id work s)
  unfolding out_of_memory
  out_of_memory-AllSound a timer id work s (r, (p, (b, m))) =
      report-AllSound a work Types.internal_error
        (record s { pending = erase id s.pending; effects = _ })
        (internal_error-Fits s.config.method m)
        (r, (erase-AllEvidenceFits s.config.method id s.pending p, (b, m)))

  answered-AllSound :
      (a : Answer) (id : ℕ) (work : WorkItem) (s : PortScanScheduler D L)
      → AllSound s
      → AllSound (answered a id work s).1
  unfolding answered
  answered-AllSound a id work s (r, (p, (b, m))) = elim (Bool-cases (is_ok a.submit_status)) [
    | inl e ↦ rw (e, answered) (r, (p, (b, m)))
    | inr e ↦
        rw (e, answered)
          (report-AllSound a work (submission_failure_reason a.submit_status)
            (record s { pending = erase id s.pending; effects = _ })
            (submission_failure_reason-Fits s.config.method m a.submit_status)
            (r, (erase-AllEvidenceFits s.config.method id s.pending p, (b, m))))
  ]

  submit_at-AllSound :
      (o : OutOfMemory) (a : Answer) (id : ℕ) (work : WorkItem) (s : PortScanScheduler D L)
      → AllSound s
      → AllSound (submit_at o a id work s).1
  unfolding submit_at
  submit_at-AllSound at_schedule a id work s h = answered-AllSound a id work s h
  submit_at-AllSound at_emplace a id work s h = answered-AllSound a id work s h
  submit_at-AllSound at_submit a id work s h = out_of_memory-AllSound a a.timer_id id work s h
  submit_at-AllSound at_next a id work s h = answered-AllSound a id work s h
  submit_at-AllSound never a id work s h = answered-AllSound a id work s h

  register-AllSound :
      (a : Answer) (id : ℕ) (work : WorkItem) (submission : PortSubmission)
      (s : PortScanScheduler D L)
      → AllSound s
      → AllSound (register a id work submission s).1
  unfolding register
  register-AllSound a id work submission s (r, (p, (b, m))) =
      elim (Option-cases (find id s.pending)) [
        | inr (old, e) ↦
            rw (e, register)
              (report-AllSound a work Types.internal_error (record s { effects = _ })
                (internal_error-Fits s.config.method m) (r, (p, (b, m))))
        | inl e ↦
            let entry = entry_of a work submission in
            rw (e, register)
              (submit_at-AllSound a.memory a id work
                (record s { pending = emplace id entry s.pending })
                (r, (emplace-AllEvidenceFits s.config.method id entry s.pending tt p, (b, m))))
      ]

  no_timer-AllSound :
      (a : Answer) (work : WorkItem) (s : PortScanScheduler D L)
      → AllSound s
      → AllSound (no_timer a work s).1
  unfolding no_timer
  no_timer-AllSound a work s (r, (p, (b, m))) =
      let h =
        report-AllSound a work Types.internal_error s (internal_error-Fits s.config.method m)
          (r, (p, (b, m))) in
      elim (Bool-cases (is_ok (report_error a work Types.internal_error s).status)) [
        | inl e ↦ rw (e, no_timer) h
        | inr e ↦ rw (e, no_timer) h
      ]

  late-AllSound :
      (a : Answer) (id : ℕ) (work : WorkItem) (submission : PortSubmission)
      (s : PortScanScheduler D L)
      → AllSound s
      → AllSound (if a.timer_id == 0 then no_timer a work s else register a id work submission s).1
  late-AllSound a id work submission s h = elim (Bool-cases (a.timer_id == 0)) [
    | inl e ↦ rw e (no_timer-AllSound a work s h)
    | inr e ↦ rw e (register-AllSound a id work submission s h)
  ]

  try_at-AllSound :
      (o : OutOfMemory) (a : Answer) (id : ℕ) (work : WorkItem) (submission : PortSubmission)
      (s : PortScanScheduler D L)
      → AllSound s
      → AllSound (try_at o a id work submission s).1
  unfolding try_at
  try_at-AllSound at_schedule a id work submission s h = out_of_memory-AllSound a 0 id work s h
  try_at-AllSound at_emplace a id work submission s h = elim (Bool-cases (a.timer_id == 0)) [
    | inl e ↦ rw (e, try_at) (no_timer-AllSound a work s h)
    | inr e ↦ rw (e, try_at) (out_of_memory-AllSound a a.timer_id id work s h)
  ]
  try_at-AllSound at_submit a id work submission s h = late-AllSound a id work submission s h
  try_at-AllSound at_next a id work submission s h = late-AllSound a id work submission s h
  try_at-AllSound never a id work submission s h = late-AllSound a id work submission s h

  launch-AllSound :
      (probe : PortProbe) (a : Answer) (work : WorkItem) (s : PortScanScheduler D L)
      → AllSound s
      → AllSound (launch probe a work s).1
  unfolding launch try_submit
  launch-AllSound probe a work s (r, (p, (b, m))) =
      let (status, submission) = probe.build s.next_id work.host work.port in
      let s' = record s { next_id = increment s.next_id } in
      elim (Bool-cases (is_ok (probe.build s.next_id work.host work.port).0)) [
        | inl e ↦
            rw (e, launch, try_submit)
              (try_at-AllSound a.memory a s.next_id work submission s' (r, (p, (b, m))))
        | inr e ↦
            rw (e, launch)
              (report-AllSound a work (build_failure_reason status) s'
                (build_failure_reason-Fits s.config.method m status) (r, (p, (b, m))))
      ]

  pump_loop-AllSound :
      (probe : PortProbe) (most : ℕ) (rounds : ℕ → Answer) (i : ℕ) (queue : List WorkItem)
      (s : PortScanScheduler D L)
      → AllSound s
      → AllSound (pump_loop probe most rounds i queue s)
  unfolding pump_loop
  pump_loop-AllSound probe most rounds i [] s h = h
  pump_loop-AllSound probe most rounds i (work ∷ queue) s h =
      let one = launch-AllSound probe (rounds i) work s h in
      elim (Bool-cases (is_ok s.status && ltb (length s.pending) most)) [
        | inr e ↦ rw (pump_loop, e) h
        | inl e ↦ elim (Bool-cases (launch probe (rounds i) work s).0) [
          | inl f ↦
              rw (pump_loop, e, f)
                (pump_loop-AllSound probe most rounds (i + 1) queue
                  (launch probe (rounds i) work s).1 one)
          | inr f ↦ rw (pump_loop, e, f) one
        ]
      ]

  pub stop_if_idle-AllSound : (s : PortScanScheduler D L) → AllSound s → AllSound (stop_if_idle s)
  unfolding stop_if_idle
  stop_if_idle-AllSound s h = elim (Bool-cases (is_complete s)) [
    | inl e ↦ rw (e, stop_if_idle) h
    | inr e ↦ rw (e, stop_if_idle) h
  ]

  pub AllSound-or_else :
      {A : Type 0} (o : Option A) (s : PortScanScheduler D L) (f : A → PortScanScheduler D L)
      → AllSound s
      → ((a : A) → o ≡ some a → AllSound (f a))
      → AllSound (or_else o s f)
  AllSound-or_else none s f h k = h
  AllSound-or_else (some a) s f h k = k a refl

  pub pump-AllSound :
      (rounds : ℕ → Answer) (s : PortScanScheduler D L) → AllSound s → AllSound (pump rounds s)
  unfolding pump
  pump-AllSound rounds s h = AllSound-or_else s.probe s _ h λ probe e.
      stop_if_idle-AllSound (pump_loop probe (limit s) rounds 0 s.queue s)
        (pump_loop-AllSound probe (limit s) rounds 0 s.queue s h)
