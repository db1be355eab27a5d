-- ===== src/PortScan/Scheduler/Spending.antt =====
-- What the end of an attempt in src/portscan/port_scheduler.cpp does to the attempts that are left and
-- to the retries that are allowed.
use skan.Base.{
  ℕ, ◌^◌, ◌≤◌, ◌<◌, ℤ, ◌≡◌, refl, ap, ◌∙◌, Bool, true, false, Option, some, ◌∷◌, arith, ◌==◌,
  if◌then◌else◌, Bool-cases, Option-cases, inl, inr,
}
use skan.Base.Assoc.{find, erase, sum_of, sum_of-erase}
use skan.ScanEngine.Rtt.{Precision}
use skan.ScanEngine.Controller
use skan.PortScan.Types
use skan.PortScan.Types.{tcp_connect, same_probe, PortState, error, ScanReason}
use skan.PortScan.Scheduler.State.{
  Pending, WorkItem, PortScanScheduler, Surroundings, append_terminal_result,
}
use skan.PortScan.Scheduler.Attempt.{
  Verdict, retries, reports, decide, max_retries, note_retry, defer_retry, settle, finish_attempt,
}
use skan.PortScan.Scheduler.Handlers.{
  complete_entry, on_retry_ready, elapsed_ms, note_response, note_timeout,
}
use skan.PortScan.Scheduler.Attempts.{
  queue_left, pending_left, deferred_left, attempts, attempts-or_else, attempts-pump,
}
use skan.PortScan.Scheduler.Allowance.{
  max_retries-told, max_retries-append, max_retries-or_else, max_retries-pump,
}
use skan.PortScan.Scheduler.Retries.{attempts-finish_attempt}

module _ {D L : Type 0} (e : Surroundings) where
  max_retries-defer_retry :
      (work : WorkItem) (s : PortScanScheduler D L)
      → max_retries (defer_retry e work s).1 ≡ max_retries s
  unfolding defer_retry
  max_retries-defer_retry work s = elim (Bool-cases (s.next_retry_id == 0)) [
    | inl f ↦ rw f refl
    | inr f ↦ elim (Bool-cases (e.retry_timer == 0)) [
      | inl g ↦ rw (f, g) refl
      | inr g ↦ elim (Option-cases (find s.next_retry_id s.deferred_retries)) [
        | inr (old, h) ↦ rw (f, g, h) refl
        | inl h ↦ elim (Bool-cases e.retry_stored) [
          | inl k ↦ rw (f, g, h, k) (max_retries-told note_retry (λ t. refl) s)
          | inr k ↦ rw (f, g, h, k) refl
        ]
      ]
    ]
  ]

  max_retries-settle_retry :
      (work : WorkItem) (rtt : Option D) (n : ℕ) (out : Bool × PortScanScheduler D L)
      → max_retries out.1 ≡ n
      → max_retries (
          if out.0
          then out.1
          else append_terminal_result e.stored e.now work error Types.internal_error rtt out.1)
        ≡ n
  max_retries-settle_retry work rtt n (true, s) h = h
  max_retries-settle_retry work rtt n (false, s) h =
      max_retries-append e.stored e.now work error Types.internal_error rtt s ∙ h

  max_retries-settle :
      (rtt : Option D) (verdict : Verdict) (s : PortScanScheduler D L)
      → max_retries (settle e rtt verdict s) ≡ max_retries s
  unfolding settle
  max_retries-settle rtt (reports work state reason) s =
      max_retries-append e.stored e.now work state reason rtt s
  max_retries-settle rtt (retries work) s =
      max_retries-settle_retry work rtt (max_retries s) (defer_retry e work s)
        (max_retries-defer_retry work s)

  pub max_retries-finish_attempt :
      (work : WorkItem) (state : PortState) (reason : ScanReason) (rtt : Option D)
      (s : PortScanScheduler D L)
      → max_retries (finish_attempt e work state reason rtt s) ≡ max_retries s
  unfolding finish_attempt
  max_retries-finish_attempt work state reason rtt s =
      let verdict = decide s.config.method (max_retries s) work state reason in
      max_retries-pump e.rounds (settle e rtt verdict s) ∙ max_retries-settle rtt verdict s

  -- An attempt that ends once the probe has left the pending ones.
  pub attempts-ended :
      (bound id : ℕ) (entry : Pending) (state : PortState) (reason : ScanReason) (rtt : Option D)
      (s t : PortScanScheduler D L)
      → bound < 2 ^ 64
      → max_retries t ≡ bound
      → find id s.pending ≡ some entry
      → t.queue ≡ s.queue
      → t.pending ≡ erase id s.pending
      → t.deferred_retries ≡ s.deferred_retries
      → attempts bound (finish_attempt e entry.work state reason rtt t) < attempts bound s
  attempts-ended bound id entry state reason rtt s t small h found q p d = omega (
    arith,
    attempts-finish_attempt e bound small entry.work state reason rtt t h,
    ap (queue_left bound) q,
    ap (sum_of (pending_left bound)) p,
    ap (sum_of (deferred_left bound)) d,
    sum_of-erase (pending_left bound) id entry s.pending found,
  )

  pub attempts-on_retry_ready :
      (bound id : ℕ) (s : PortScanScheduler D L)
      → attempts bound (on_retry_ready e id s) ≤ attempts bound s
  unfolding on_retry_ready
  attempts-on_retry_ready bound id s =
      attempts-or_else bound (find id s.deferred_retries) s _ (attempts bound s) (omega arith)
        λ retry f.
          let s' = record s { deferred_retries = erase id s.deferred_retries } in
          let less = sum_of-erase (deferred_left bound) id retry s.deferred_retries f in
          elim (Bool-cases e.pushed) [
            | inl g ↦ rw g (
                omega (
                  arith,
                  less,
                  attempts-pump bound e.rounds (record s' { queue = retry.work ∷ s.queue }),
                ))
            | inr g ↦
                rw g (omega (arith, less, attempts-pump bound e.rounds (record s' { status = _ })))
          ]

  pub max_retries-on_retry_ready :
      (id : ℕ) (s : PortScanScheduler D L) → max_retries (on_retry_ready e id s) ≡ max_retries s
  unfolding on_retry_ready
  max_retries-on_retry_ready id s =
      max_retries-or_else (find id s.deferred_retries) s _ (max_retries s) refl λ retry f.
        let s' = record s { deferred_retries = erase id s.deferred_retries } in
        elim (Bool-cases e.pushed) [
          | inl g ↦ rw g (max_retries-pump e.rounds (record s' { queue = retry.work ∷ s.queue }))
          | inr g ↦ rw g (max_retries-pump e.rounds (record s' { status = _ }))
        ]

module _ {D L : Type 0} (P : Precision D L) where
  pub max_retries-note_response :
      (rtt_ms : D) (s : PortScanScheduler D L)
      → max_retries (note_response P rtt_ms s) ≡ max_retries s
  unfolding Controller.on_response
  max_retries-note_response rtt_ms s = max_retries-told _ (λ t. refl) s

  pub max_retries-note_timeout :
      (s : PortScanScheduler D L) → max_retries (note_timeout P s) ≡ max_retries s
  unfolding Controller.on_timeout
  max_retries-note_timeout s = max_retries-told _ (λ t. refl) s

  module _ (e : Surroundings) where
    pub max_retries-complete_entry :
        (id : ℕ) (entry : Pending) (state : PortState) (reason : ScanReason) (completed_at : ℤ)
        (s : PortScanScheduler D L)
        → max_retries (complete_entry P e id entry state reason completed_at s) ≡ max_retries s
    unfolding complete_entry
    max_retries-complete_entry id entry state reason completed_at s =
        let rtt_ms = elapsed_ms P entry.started_at completed_at in
        max_retries-finish_attempt e entry.work state reason _ _
        ∙ max_retries-note_response rtt_ms (record s { pending = erase id s.pending })

    pub attempts-complete_entry :
        (bound id : ℕ) (entry : Pending) (state : PortState) (reason : ScanReason)
        (completed_at : ℤ) (s : PortScanScheduler D L)
        → bound < 2 ^ 64
        → max_retries s ≡ bound
        → find id s.pending ≡ some entry
        → attempts bound (complete_entry P e id entry state reason completed_at s)
          < attempts bound s
    unfolding complete_entry
    attempts-complete_entry bound id entry state reason completed_at s small h found =
        let rtt_ms = elapsed_ms P entry.started_at completed_at in
        attempts-ended e bound id entry state reason _ s _ small
          (max_retries-note_response rtt_ms (record s { pending = erase id s.pending }) ∙ h) found
          refl refl refl
