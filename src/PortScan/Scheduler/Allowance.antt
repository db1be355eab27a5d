-- ===== src/PortScan/Scheduler/Allowance.antt =====
-- No call of src/portscan/port_scheduler.cpp changes the number of retries that an item is allowed.
use skan.Base.{
  ℕ, ◌+◌, ℤ, ◌≡◌, increment, refl, ap, ◌∙◌, Bool, true, false, ◌&&◌, Option, none, some, List, [],
  ◌∷◌, length, ltb, ◌==◌, if◌then◌else◌, Bool-cases, Option-cases, inl, inr,
}
use skan.Base.Assoc.{find, emplace}
use skan.Core.{is_ok}
use skan.ScanEngine.Rtt.{or_else}
use skan.ScanEngine.Controller.{TimingController, on_submitted}
use skan.ScanEngine.Scheduler.{OutOfMemory, at_schedule, at_emplace, at_submit, at_next, never}
use skan.PortScan.Types
use skan.PortScan.Types.{PortState, ScanReason}
use skan.PortScan.Probes.{PortSubmission}
use skan.PortScan.Scheduler.State.{
  PortProbe, WorkItem, PortScanScheduler, Answer, append_terminal_result, stop_if_idle, is_complete,
}
use skan.PortScan.Scheduler.Pump.{
  entry_of, report_error, out_of_memory, answered, submit_at, register, no_timer, try_at,
  try_submit, launch, limit, pump_loop, pump,
}
use skan.PortScan.Scheduler.Attempt.{max_retries}

module _ {D L : Type 0} where
  -- What the controller is told leaves its profile as it is.
  pub max_retries-told :
      (f : TimingController D L → TimingController D L)
      → ((t : TimingController D L) → (f t).profile ≡ t.profile)
      → (s : PortScanScheduler D L)
      → max_retries (record s { timing = or_else s.timing none (λ t. some (f t)) }) ≡ max_retries s
  max_retries-told f h s = elim (Option-cases s.timing) [
    | inl e ↦ rw e refl
    | inr (t, e) ↦ rw e (ap (λ p. p.max_retries) (h t))
  ]

  pub max_retries-append :
      (stored : Bool) (now : ℤ) (work : WorkItem) (state : PortState) (reason : ScanReason)
      (rtt : Option D) (s : PortScanScheduler D L)
      → max_retries (append_terminal_result stored now work state reason rtt s) ≡ max_retries s
  unfolding append_terminal_result
  max_retries-append true now work state reason rtt s = refl
  max_retries-append false now work state reason rtt s = refl

  max_retries-answered :
      (a : Answer) (id : ℕ) (work : WorkItem) (s : PortScanScheduler D L)
      → max_retries (answered a id work s).1 ≡ max_retries s
  unfolding answered on_submitted
  max_retries-answered a id work s = elim (Bool-cases (is_ok a.submit_status)) [
    | inl e ↦ rw e (max_retries-told (λ t. on_submitted t (length s.pending)) (λ t. refl) s)
    | inr e ↦
        rw e
          (max_retries-append a.stored a.now work _ _ none (record s { pending = _; effects = _ }))
  ]

  max_retries-out_of_memory :
      (a : Answer) (timer id : ℕ) (work : WorkItem) (s : PortScanScheduler D L)
      → max_retries (out_of_memory a timer id work s) ≡ max_retries s
  unfolding out_of_memory
  max_retries-out_of_memory a timer id work s =
      max_retries-append a.stored a.now work _ _ none (record s { pending = _; effects = _ })

  max_retries-submit_at :
      (m : OutOfMemory) (a : Answer) (id : ℕ) (work : WorkItem) (s : PortScanScheduler D L)
      → max_retries (submit_at m a id work s).1 ≡ max_retries s
  unfolding submit_at
  max_retries-submit_at at_schedule a id work s = max_retries-answered a id work s
  max_retries-submit_at at_emplace a id work s = max_retries-answered a id work s
  max_retries-submit_at at_submit a id work s = max_retries-out_of_memory a a.timer_id id work s
  max_retries-submit_at at_next a id work s = max_retries-answered a id work s
  max_retries-submit_at never a id work s = max_retries-answered a id work s

  max_retries-register :
      (a : Answer) (id : ℕ) (work : WorkItem) (submission : PortSubmission)
      (s : PortScanScheduler D L)
      → max_retries (register a id work submission s).1 ≡ max_retries s
  unfolding register
  max_retries-register a id work submission s = elim (Option-cases (find id s.pending)) [
    | inr (old, e) ↦
        rw e (max_retries-append a.stored a.now work _ _ none (record s { effects = _ }))
    | inl e ↦
        let entry = entry_of a work submission in
        rw e (
          max_retries-submit_at a.memory a id work
            (record s { pending = emplace id entry s.pending }))
  ]

  max_retries-no_timer :
      (a : Answer) (work : WorkItem) (s : PortScanScheduler D L)
      → max_retries (no_timer a work s).1 ≡ max_retries s
  unfolding no_timer
  max_retries-no_timer a work s =
      let h = max_retries-append a.stored a.now work Types.error Types.internal_error none s in
      elim (Bool-cases (is_ok (report_error a work Types.internal_error s).status)) [
        | inl e ↦ rw e h
        | inr e ↦ rw e h
      ]

  max_retries-late :
      (a : Answer) (id : ℕ) (work : WorkItem) (submission : PortSubmission)
      (s : PortScanScheduler D L)
      → max_retries
          (if a.timer_id == 0 then no_timer a work s else register a id work submission s).1
        ≡ max_retries s
  max_retries-late a id work submission s = elim (Bool-cases (a.timer_id == 0)) [
    | inl e ↦ rw e (max_retries-no_timer a work s)
    | inr e ↦ rw e (max_retries-register a id work submission s)
  ]

  max_retries-try_at :
      (m : OutOfMemory) (a : Answer) (id : ℕ) (work : WorkItem) (submission : PortSubmission)
      (s : PortScanScheduler D L)
      → max_retries (try_at m a id work submission s).1 ≡ max_retries s
  unfolding try_at
  max_retries-try_at at_schedule a id work submission s = max_retries-out_of_memory a 0 id work s
  max_retries-try_at at_emplace a id work submission s = elim (Bool-cases (a.timer_id == 0)) [
    | inl e ↦ rw e (max_retries-no_timer a work s)
    | inr e ↦ rw e (max_retries-out_of_memory a a.timer_id id work s)
  ]
  max_retries-try_at at_submit a id work submission s = max_retries-late a id work submission s
  max_retries-try_at at_next a id work submission s = max_retries-late a id work submission s
  max_retries-try_at never a id work submission s = max_retries-late a id work submission s

  max_retries-launch :
      (probe : PortProbe) (a : Answer) (work : WorkItem) (s : PortScanScheduler D L)
      → max_retries (launch probe a work s).1 ≡ max_retries s
  unfolding launch try_submit
  max_retries-launch probe a work s =
      let (status, submission) = probe.build s.next_id work.host work.port in
      let s' = record s { next_id = increment s.next_id } in
      elim (Bool-cases (is_ok (probe.build s.next_id work.host work.port).0)) [
        | inl e ↦ rw e (max_retries-try_at a.memory a s.next_id work submission s')
        | inr e ↦ rw e (max_retries-append a.stored a.now work _ _ none s')
      ]

  max_retries-pump_loop :
      (probe : PortProbe) (most : ℕ) (rounds : ℕ → Answer) (i : ℕ) (queue : List WorkItem)
      (s : PortScanScheduler D L)
      → max_retries (pump_loop probe most rounds i queue s) ≡ max_retries s
  unfolding pump_loop
  max_retries-pump_loop probe most rounds i [] s = refl
  max_retries-pump_loop probe most rounds i (work ∷ queue) s =
      let one = max_retries-launch probe (rounds i) work s in
      elim (Bool-cases (is_ok s.status && ltb (length s.pending) most)) [
        | inr e ↦ rw (pump_loop, e) refl
        | inl e ↦ elim (Bool-cases (launch probe (rounds i) work s).0) [
          | inl f ↦
              rw (pump_loop, e, f)
                (max_retries-pump_loop probe most rounds (i + 1) queue
                    (launch probe (rounds i) work s).1
                  ∙ one)
          | inr f ↦ rw (pump_loop, e, f) one
        ]
      ]

  pub max_retries-stop_if_idle :
      (s : PortScanScheduler D L) → max_retries (stop_if_idle s) ≡ max_retries s
  unfolding stop_if_idle
  max_retries-stop_if_idle s = elim (Bool-cases (is_complete s)) [
    | inl e ↦ rw e refl
    | inr e ↦ rw e refl
  ]

  -- A branch on an option, by its cases.
  pub max_retries-or_else :
      {A : Type 0} (o : Option A) (s : PortScanScheduler D L) (f : A → PortScanScheduler D L)
      (n : ℕ)
      → max_retries s ≡ n
      → ((a : A) → o ≡ some a → max_retries (f a) ≡ n)
      → max_retries (or_else o s f) ≡ n
  max_retries-or_else none s f n h k = h
  max_retries-or_else (some a) s f n h k = k a refl

  pub max_retries-pump :
      (rounds : ℕ → Answer) (s : PortScanScheduler D L)
      → max_retries (pump rounds s) ≡ max_retries s
  unfolding pump
  max_retries-pump rounds s = max_retries-or_else s.probe s _ (max_retries s) refl λ probe e.
      max_retries-stop_if_idle (pump_loop probe (limit s) rounds 0 s.queue s)
      ∙ max_retries-pump_loop probe (limit s) rounds 0 s.queue s
