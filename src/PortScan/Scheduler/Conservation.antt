-- ===== src/PortScan/Scheduler/Conservation.antt =====
-- No probe of src/portscan/port_scheduler.cpp gets lost: the work that is queued, pending or put off
-- and the results that are reported add up to the same number through every call.
use skan.Base.{
  ℕ, ◌+◌, ℤ, ◌≡◌, increment, refl, sym, ◌∙◌, true, ◌&&◌, Option, none, some, List, [], ◌∷◌, length,
  length-append, arith, ltb, ◌==◌, Bool-cases, Option-cases, inl, inr,
}
use mathlib.Core.Path.{subst}
use skan.Base.Assoc.{Assoc, find, emplace, erase, length-emplace, length-erase, find-emplace}
use skan.Core.{is_ok}
use skan.ScanEngine.Rtt.{or_else}
use skan.ScanEngine.Scheduler.{never}
use skan.PortScan.Types
use skan.PortScan.Types.{Port, ScanProbeType, PortState, ScanReason}
use skan.PortScan.Probes.{PortSubmission}
use skan.PortScan.Scheduler.State.{
  PortProbe, WorkItem, Pending, PortScanScheduler, Answer, Surroundings, append_terminal_result,
  stop_if_idle, is_complete,
}
use skan.PortScan.Scheduler.Pump.{
  entry_of, build_failure_reason, report_error, answered, submit_at, register, no_timer, try_at,
  try_submit, launch, limit, pump_loop, pump,
}

-- No allocation fails.
pub record IsRoomy (a : Answer) : Type 0 where
  pub memory : a.memory ≡ never
  pub stored : a.stored ≡ true

pub record AllRoomy (e : Surroundings) : Type 0 where
  pub stored : e.stored ≡ true
  pub retry_stored : e.retry_stored ≡ true
  pub pushed : e.pushed ≡ true
  pub rounds : (i : ℕ) → IsRoomy (e.rounds i)

found :
    (id : ℕ) (entry : Pending) (m : Assoc Pending)
    → find id m ≡ none
    → find id (emplace id entry m) ≡ some entry
found id entry m e = let f = find-emplace id id entry m e in ground arith

module _ {D L : Type 0} where
  -- The work that is not queued: pending, put off or reported.
  abbrev pub taken : PortScanScheduler D L → ℕ
  taken s = length s.pending + length s.deferred_retries + length s.results

  -- All the work that the scheduler answers for.
  abbrev pub total : PortScanScheduler D L → ℕ
  total s = length s.queue + taken s

  pub taken-append :
      (now : ℤ) (work : WorkItem) (state : PortState) (reason : ScanReason) (rtt : Option D)
      (s : PortScanScheduler D L)
      → taken (append_terminal_result true now work state reason rtt s) ≡ taken s + 1
  unfolding append_terminal_result
  taken-append now work state reason rtt s = omega (arith, length-append {0} s.results (_ ∷ []))

  module _ (a : Answer) (roomy : IsRoomy a) where
    taken-report :
        (work : WorkItem) (reason : ScanReason) (s : PortScanScheduler D L)
        → taken (report_error a work reason s) ≡ taken s + 1
    taken-report work reason s = rw roomy.stored (taken-append a.now work _ reason none s)

    taken-answered :
        (id : ℕ) (work : WorkItem) (entry : Pending) (s : PortScanScheduler D L)
        → find id s.pending ≡ some entry
        → taken (answered a id work s).1 ≡ taken s
    unfolding answered
    taken-answered id work entry s h = elim (Bool-cases (is_ok a.submit_status)) [
      | inl e ↦ rw e refl
      | inr e ↦ rw e (
          taken-report work _ (record s { pending = erase id s.pending; effects = _ })
          ∙ omega (arith, length-erase id entry s.pending h))
    ]

    taken-submit_at :
        (id : ℕ) (work : WorkItem) (entry : Pending) (s : PortScanScheduler D L)
        → find id s.pending ≡ some entry
        → taken (submit_at a.memory a id work s).1 ≡ taken s
    unfolding submit_at
    taken-submit_at id work entry s h =
        subst (λ m. taken (submit_at m a id work s).1 ≡ taken s) (sym roomy.memory)
          (taken-answered id work entry s h)

    taken-register :
        (id : ℕ) (work : WorkItem) (submission : PortSubmission) (s : PortScanScheduler D L)
        → taken (register a id work submission s).1 ≡ taken s + 1
    unfolding register
    taken-register id work submission s = elim (Option-cases (find id s.pending)) [
      | inr (old, e) ↦ rw e (taken-report work _ (record s { effects = _ }))
      | inl e ↦
          let entry = entry_of a work submission in
          rw e (
            taken-submit_at id work entry (record s { pending = emplace id entry s.pending })
              (found id entry s.pending e)
            ∙ omega (arith, length-emplace id entry s.pending e))
    ]

    taken-no_timer :
        (work : WorkItem) (s : PortScanScheduler D L) → taken (no_timer a work s).1 ≡ taken s + 1
    unfolding no_timer
    taken-no_timer work s =
        elim (Bool-cases (is_ok (report_error a work Types.internal_error s).status)) [
          | inl e ↦ rw e (taken-report work Types.internal_error s)
          | inr e ↦ rw e (taken-report work Types.internal_error s)
        ]

    taken-try_never :
        (id : ℕ) (work : WorkItem) (submission : PortSubmission) (s : PortScanScheduler D L)
        → taken (try_at never a id work submission s).1 ≡ taken s + 1
    unfolding try_at
    taken-try_never id work submission s = elim (Bool-cases (a.timer_id == 0)) [
      | inl e ↦ rw e (taken-no_timer work s)
      | inr e ↦ rw e (taken-register id work submission s)
    ]

    taken-try_submit :
        (id : ℕ) (work : WorkItem) (submission : PortSubmission) (s : PortScanScheduler D L)
        → taken (try_submit a id work submission s).1 ≡ taken s + 1
    unfolding try_submit
    taken-try_submit id work submission s =
        subst (λ m. taken (try_at m a id work submission s).1 ≡ taken s + 1) (sym roomy.memory)
          (taken-try_never id work submission s)

    taken-launch :
        (probe : PortProbe) (work : WorkItem) (s : PortScanScheduler D L)
        → taken (launch probe a work s).1 ≡ taken s + 1
    unfolding launch
    taken-launch probe work s =
        let (status, submission) = probe.build s.next_id work.host work.port in
        let s' = record s { next_id = increment s.next_id } in
        elim (Bool-cases (is_ok (probe.build s.next_id work.host work.port).0)) [
          | inl e ↦ rw e (taken-try_submit s.next_id work submission s')
          | inr e ↦ rw e (taken-report work (build_failure_reason status) s')
        ]

  module _ (probe : PortProbe) (bound : ℕ) (rounds : ℕ → Answer)
      (roomy : (i : ℕ) → IsRoomy (rounds i)) where
    total-pump_loop :
        (i : ℕ) (queue : List WorkItem) (s : PortScanScheduler D L)
        → total (pump_loop probe bound rounds i queue s) ≡ length queue + taken s
    unfolding pump_loop
    total-pump_loop i [] s = refl
    total-pump_loop i (work ∷ queue) s =
        let one = taken-launch (rounds i) (roomy i) probe work s in
        elim (Bool-cases (is_ok s.status && ltb (length s.pending) bound)) [
          | inr e ↦ rw (pump_loop, e) refl
          | inl e ↦ elim (Bool-cases (launch probe (rounds i) work s).0) [
            | inl f ↦
                rw (pump_loop, e, f)
                  (total-pump_loop (i + 1) queue (launch probe (rounds i) work s).1
                    ∙ omega (arith, one))
            | inr f ↦ rw (pump_loop, e, f) (omega (arith, one))
          ]
        ]

  -- A branch on an option, by its cases.
  pub total-or_else :
      {A : Type 0} (o : Option A) (s : PortScanScheduler D L) (f : A → PortScanScheduler D L)
      (n : ℕ)
      → total s ≡ n
      → ((a : A) → o ≡ some a → total (f a) ≡ n)
      → total (or_else o s f) ≡ n
  total-or_else none s f n h k = h
  total-or_else (some a) s f n h k = k a refl

  pub total-stop_if_idle : (s : PortScanScheduler D L) → total (stop_if_idle s) ≡ total s
  unfolding stop_if_idle
  total-stop_if_idle s = elim (Bool-cases (is_complete s)) [ inl e ↦ rw e refl | inr e ↦ rw e refl ]

  pub total-pump :
      (rounds : ℕ → Answer) (s : PortScanScheduler D L)
      → ((i : ℕ) → IsRoomy (rounds i))
      → total (pump rounds s) ≡ total s
  unfolding pump
  total-pump rounds s roomy = total-or_else s.probe s _ (total s) refl λ probe e.
      total-stop_if_idle (pump_loop probe (limit s) rounds 0 s.queue s)
      ∙ total-pump_loop probe (limit s) rounds roomy 0 s.queue s
