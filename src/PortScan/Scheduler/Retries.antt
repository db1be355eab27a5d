-- ===== src/PortScan/Scheduler/Retries.antt =====
-- How the calls of src/portscan/port_scheduler.cpp use up the attempts: each timeout of a pending probe
-- takes one, and no call gives any back.
use skan.Base.{
  ℕ, suc, ◌+◌, ◌-◌, ◌^◌, ◌≤◌, ◌<◌, ◌≡◌, increment, refl, sym, Bool, true, false, ◌&&◌, ◌||◌, Option,
  arith, ltb, ◌==◌, if◌then◌else◌, Bool-cases, Option-cases, inl, inr,
}
use skan.Base.Assoc.{find, sum_of-emplace}
use skan.PortScan.Types
use skan.PortScan.Types.{
  ScanProbeType, tcp_connect, same_probe, PortState, error, ScanReason, timeout, ack_timeout,
  same_reason,
}
use skan.PortScan.Scheduler.State.{
  DeferredRetry, WorkItem, PortScanScheduler, Surroundings, append_terminal_result,
}
use skan.PortScan.Scheduler.Attempt.{
  Verdict, retries, reports, should_confirm_negative, observe, decide, max_retries, defer_retry,
  settle, finish_attempt,
}
use skan.PortScan.Scheduler.Attempts.{left, deferred_left, attempts, attempts-append, attempts-pump}

-- An item with one more retry.
abbrev again : WorkItem → WorkItem
again work = record work { retry_count = increment work.retry_count }

left-again :
    (bound : ℕ) (work : WorkItem)
    → bound < 2 ^ 64
    → work.retry_count < bound
    → suc (left bound (again work)) ≤ left bound work
left-again bound work small more = omega arith

ltb-right : (b : Bool) (m n : ℕ) → (b && ltb m n) ≡ true → m < n
ltb-right b m n h = ground arith

-- A verdict to try again is given while retries are left.
abbrev Allowed : ℕ → WorkItem → Verdict → Type 0
Allowed bound work (retries seen) =
    (seen.retry_count ≡ work.retry_count) × (work.retry_count < bound)
Allowed bound work (reports seen state reason) = Unit

observe-retry_count :
    (work : WorkItem) (state : PortState) → (observe work state).0.retry_count ≡ work.retry_count
observe-retry_count work Types.open_port = refl
observe-retry_count work Types.closed = refl
observe-retry_count work Types.filtered = refl
observe-retry_count work _ = refl

Allowed-if :
    (bound : ℕ) (work : WorkItem) (b : Bool) (x y : Verdict)
    → (b ≡ true → Allowed bound work x)
    → Allowed bound work y
    → Allowed bound work (if b then x else y)
Allowed-if bound work true x y h k = h refl
Allowed-if bound work false x y h k = k

decide-Allowed :
    (method : ScanProbeType) (bound : ℕ) (work : WorkItem) (state : PortState) (reason : ScanReason)
    → Allowed bound work (decide method bound work state reason)
unfolding decide
decide-Allowed method bound work state reason =
    let (seen, matching) = observe work state in
    let timed_out = same_reason reason timeout || same_reason reason ack_timeout in
    Allowed-if bound work (should_confirm_negative method state reason) _ _
      (λ c.
        Allowed-if bound work (ltb 0 seen.closed_observations && ltb 0 seen.filtered_observations)
          (reports seen Types.unknown Types.conflicting_evidence) _ (λ d. tt)
          (Allowed-if bound work (ltb matching 2 && ltb work.retry_count bound) (retries seen)
            (reports seen state reason)
            (λ h.
              (observe-retry_count work state, ltb-right (ltb matching 2) work.retry_count bound h))
            tt))
      (Allowed-if bound work (timed_out && ltb work.retry_count bound) (retries work)
        (reports work state reason) (λ h. (refl, ltb-right timed_out work.retry_count bound h)) tt)

module _ {D L : Type 0} (e : Surroundings) (bound : ℕ) (small : bound < 2 ^ 64) where
  -- A retry takes one of the attempts that are left to the item.
  attempts-defer_retry :
      (work : WorkItem) (s : PortScanScheduler D L)
      → work.retry_count < bound
      → attempts bound (defer_retry e work s).1 ≤ attempts bound s + (bound - work.retry_count)
  unfolding defer_retry
  attempts-defer_retry work s more = elim (Bool-cases (s.next_retry_id == 0)) [
    | inl f ↦ rw f (omega arith)
    | inr f ↦ elim (Bool-cases (e.retry_timer == 0)) [
      | inl g ↦ rw (f, g) (omega arith)
      | inr g ↦ elim (Option-cases (find s.next_retry_id s.deferred_retries)) [
        | inr (old, h) ↦ rw (f, g, h) (omega arith)
        | inl h ↦ elim (Bool-cases e.retry_stored) [
          | inl k ↦
              let later : DeferredRetry = record { work = again work; timer_id = e.retry_timer } in
              rw (f, g, h, k)
                (omega (
                  arith,
                  sum_of-emplace (deferred_left bound) s.next_retry_id later s.deferred_retries,
                  left-again bound work small more,
                ))
          | inr k ↦ rw (f, g, h, k) (omega arith)
        ]
      ]
    ]
  ]

  attempts-settle_retry :
      (work : WorkItem) (rtt : Option D) (most : ℕ) (out : Bool × PortScanScheduler D L)
      → attempts bound out.1 ≤ most
      → attempts bound (
          if out.0
          then out.1
          else append_terminal_result e.stored e.now work error Types.internal_error rtt out.1)
        ≤ most
  attempts-settle_retry work rtt most (true, s) h = h
  attempts-settle_retry work rtt most (false, s) h =
      omega (arith, attempts-append bound e.stored e.now work error Types.internal_error rtt s)

  attempts-settle :
      (rtt : Option D) (work : WorkItem) (verdict : Verdict) (s : PortScanScheduler D L)
      → Allowed bound work verdict
      → attempts bound (settle e rtt verdict s) ≤ attempts bound s + (bound - work.retry_count)
  unfolding settle
  attempts-settle rtt work (reports seen state reason) s allowed =
      omega (arith, attempts-append bound e.stored e.now seen state reason rtt s)
  attempts-settle rtt work (retries seen) s (same, more) =
      attempts-settle_retry seen rtt _ (defer_retry e seen s)
        (rw (sym same) (attempts-defer_retry seen s (rw same more)))

  -- The end of an attempt of an item leaves it one attempt less.
  pub attempts-finish_attempt :
      (work : WorkItem) (state : PortState) (reason : ScanReason) (rtt : Option D)
      (s : PortScanScheduler D L)
      → max_retries s ≡ bound
      → attempts bound (finish_attempt e work state reason rtt s)
        ≤ attempts bound s + (bound - work.retry_count)
  unfolding finish_attempt
  attempts-finish_attempt work state reason rtt s h =
      let verdict = decide s.config.method (max_retries s) work state reason in
      let allowed : Allowed bound work verdict =
        rw (sym h) (decide-Allowed s.config.method (max_retries s) work state reason) in
      omega (
        arith,
        attempts-pump bound e.rounds (settle e rtt verdict s),
        attempts-settle rtt work verdict s allowed,
      )
