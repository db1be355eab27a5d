-- ===== src/PortScan/Scheduler/Verdicts.antt =====
-- The ends of attempts and the submissions of src/portscan/port_scheduler.cpp keep what is reported and
-- the evidence meaningful.
use skan.Base.{
  ℕ, ◌+◌, ℤ, ◌≡◌, Bool, true, false, not, ◌&&◌, ◌||◌, Option, none, List, [], ◌∷◌, ◌++◌, map, ltb,
  ◌==◌, if◌then◌else◌, Bool-cases, Option-cases, inl, inr,
}
use mathlib.Core.Path.{subst}
use skan.Base.Assoc.{find, erase}
use skan.Core.{invalid_argument, memory_error, is_ok}
use skan.PortScan.Types
use skan.PortScan.Types.{
  Port, ScanProbeType, udp_probe, tcp_connect, same_probe, same_reason, timeout, ack_timeout,
  PortState, error, ScanReason, invalid_target,
}
use skan.PortScan.Scheduler.State.{
  Host, WorkItem, Pending, PortScanScheduler, Surroundings, append_terminal_result, new_work,
}
use skan.PortScan.Scheduler.Pump.{pump}
use skan.PortScan.Scheduler.Attempt.{
  Verdict, retries, reports, same_port_state, should_confirm_negative, observe, decide, max_retries,
  defer_retry, settle, finish_attempt,
}
use skan.PortScan.Scheduler.Handlers.{weigh, on_retry_ready}
use skan.PortScan.Scheduler.Submit.{valid_host_address, refuse_host, enqueue_hosts, submit_accepted}
use skan.PortScan.Scheduler.Fitting.{
  Fits, EvidenceFits, internal_error-Fits, invalid_target-Fits, conflict-Fits,
}
use skan.PortScan.Scheduler.Soundness.{
  AllSound, append-AllSound, stop_if_idle-AllSound, AllSound-or_else, pump-AllSound,
}

abbrev VerdictFits : ScanProbeType → Verdict → Type 0
VerdictFits method (retries work) = Unit
VerdictFits method (reports work state reason) = Fits method state reason

VerdictFits-if :
    (method : ScanProbeType) (b : Bool) (x y : Verdict)
    → VerdictFits method x
    → VerdictFits method y
    → VerdictFits method (if b then x else y)
VerdictFits-if method true x y h k = h
VerdictFits-if method false x y h k = k

decide-VerdictFits :
    (method : ScanProbeType) (most : ℕ) (work : WorkItem) (state : PortState) (reason : ScanReason)
    → same_probe method udp_probe ≡ false
    → Fits method state reason
    → VerdictFits method (decide method most work state reason)
unfolding decide
decide-VerdictFits method most work state reason h fits =
    let (seen, matching) = observe work state in
    let timed_out = same_reason reason timeout || same_reason reason ack_timeout in
    VerdictFits-if method (should_confirm_negative method state reason) _ _
      (VerdictFits-if method (ltb 0 seen.closed_observations && ltb 0 seen.filtered_observations)
        (reports seen Types.unknown Types.conflicting_evidence) _ (conflict-Fits method h)
        (VerdictFits-if method (ltb matching 2 && ltb work.retry_count most) (retries seen)
          (reports seen state reason) tt fits))
      (VerdictFits-if method (timed_out && ltb work.retry_count most) (retries work)
        (reports work state reason) tt fits)

-- Evidence that is weighed still fits.
pub weigh-EvidenceFits :
    (method : ScanProbeType) (state : PortState) (reason : ScanReason) (at : ℤ) (entry : Pending)
    → same_probe method udp_probe ≡ false
    → Fits method state reason
    → EvidenceFits method entry.candidate_state entry.candidate_reason
    → EvidenceFits method
        (weigh state reason at entry).candidate_state
        (weigh state reason at entry).candidate_reason
unfolding weigh
weigh-EvidenceFits method state reason at entry h fits old =
    elim (Option-cases entry.candidate_state) [
      | inl e ↦ rw (e, weigh) fits
      | inr (candidate, e) ↦
          elim (Bool-cases (not entry.conflict && not (same_port_state candidate state))) [
            | inl f ↦ rw (e, f, weigh) (conflict-Fits method h)
            | inr f ↦
                rw (e, f, weigh) (subst (λ o. EvidenceFits method o entry.candidate_reason) e old)
          ]
    ]

module _ {D L : Type 0} (e : Surroundings) where
  defer_retry-AllSound :
      (work : WorkItem) (s : PortScanScheduler D L) → AllSound s → AllSound (defer_retry e work s).1
  unfolding defer_retry
  defer_retry-AllSound work s sound = elim (Bool-cases (s.next_retry_id == 0)) [
    | inl f ↦ rw (f, defer_retry) sound
    | inr f ↦ elim (Bool-cases (e.retry_timer == 0)) [
      | inl g ↦ rw (f, g, defer_retry) sound
      | inr g ↦ elim (Option-cases (find s.next_retry_id s.deferred_retries)) [
        | inr (old, h) ↦ rw (f, g, h, defer_retry) sound
        | inl h ↦ elim (Bool-cases e.retry_stored) [
          | inl k ↦ rw (f, g, h, k, defer_retry) sound
          | inr k ↦ rw (f, g, h, k, defer_retry) sound
        ]
      ]
    ]
  ]

  settle_retry-AllSound :
      (work : WorkItem) (rtt : Option D) (out : Bool × PortScanScheduler D L)
      → AllSound out.1
      → AllSound (
          if out.0
          then out.1
          else append_terminal_result e.stored e.now work error Types.internal_error rtt out.1)
  settle_retry-AllSound work rtt (true, s) sound = sound
  settle_retry-AllSound work rtt (false, s) (r, (p, (b, m))) =
      append-AllSound e.stored e.now work error Types.internal_error rtt s
        (internal_error-Fits s.config.method m) (r, (p, (b, m)))

  settle-AllSound :
      (rtt : Option D) (verdict : Verdict) (s : PortScanScheduler D L)
      → VerdictFits s.config.method verdict
      → AllSound s
      → AllSound (settle e rtt verdict s)
  unfolding settle
  settle-AllSound rtt (reports work state reason) s fits sound =
      append-AllSound e.stored e.now work state reason rtt s fits sound
  settle-AllSound rtt (retries work) s fits sound =
      settle_retry-AllSound work rtt (defer_retry e work s) (defer_retry-AllSound work s sound)

  pub finish_attempt-AllSound :
      (work : WorkItem) (state : PortState) (reason : ScanReason) (rtt : Option D)
      (s : PortScanScheduler D L)
      → Fits s.config.method state reason
      → AllSound s
      → AllSound (finish_attempt e work state reason rtt s)
  unfolding finish_attempt
  finish_attempt-AllSound work state reason rtt s fits (r, (p, (b, m))) =
      let verdict = decide s.config.method (max_retries s) work state reason in
      pump-AllSound e.rounds (settle e rtt verdict s) (
        settle-AllSound rtt verdict s
          (decide-VerdictFits s.config.method (max_retries s) work state reason m fits)
          (r, (p, (b, m))))

  pub on_retry_ready-AllSound :
      (id : ℕ) (s : PortScanScheduler D L) → AllSound s → AllSound (on_retry_ready e id s)
  unfolding on_retry_ready
  on_retry_ready-AllSound id s sound =
      AllSound-or_else (find id s.deferred_retries) s _ sound λ retry f.
        let s' = record s { deferred_retries = erase id s.deferred_retries } in
        let queued = record s' { queue = retry.work ∷ s.queue } in
        let lost = record s' { status = memory_error } in
        elim (Bool-cases e.pushed) [
          | inl k ↦ rw k (pump-AllSound e.rounds queued sound)
          | inr k ↦ rw k (pump-AllSound e.rounds lost sound)
        ]

  refuse_host-AllSound :
      (host : Host) (ports : List Port) (s : PortScanScheduler D L)
      → AllSound s
      → AllSound (refuse_host e host ports s)
  unfolding refuse_host
  refuse_host-AllSound host [] s sound = sound
  refuse_host-AllSound host (port ∷ ports) s (r, (p, (b, m))) = refuse_host-AllSound host ports _ (
      append-AllSound e.stored e.now (new_work host port) error invalid_target none s
        (invalid_target-Fits s.config.method m) (r, (p, (b, m))))

  module _ (is_address : List ℕ → Bool) (room : ℕ → Bool) where
    enqueue_hosts-AllSound :
        (i : ℕ) (hosts : List Host) (ports : List Port) (s : PortScanScheduler D L)
        → AllSound s
        → AllSound (enqueue_hosts e is_address room i hosts ports s).1
    unfolding enqueue_hosts
    enqueue_hosts-AllSound i [] ports s sound = sound
    enqueue_hosts-AllSound i (host ∷ hosts) ports s sound =
        let queued = record s { queue = s.queue ++ map (new_work host) ports } in
        let refused = record (refuse_host e host ports s) { status = invalid_argument } in
        elim (Bool-cases (room i)) [
          | inr f ↦ rw (f, enqueue_hosts) sound
          | inl f ↦ elim (Bool-cases (valid_host_address is_address host)) [
            | inl g ↦
                rw (f, g, enqueue_hosts) (enqueue_hosts-AllSound (i + 1) hosts ports queued sound)
            | inr g ↦
                rw (f, g, enqueue_hosts)
                  (enqueue_hosts-AllSound (i + 1) hosts ports refused
                    (refuse_host-AllSound host ports s sound))
          ]
        ]

    pub submit_accepted-AllSound :
        (hosts : List Host) (ports : List Port) (s : PortScanScheduler D L)
        → AllSound s
        → AllSound (submit_accepted e is_address room hosts ports s)
    unfolding submit_accepted
    submit_accepted-AllSound hosts ports s sound =
        let s' = record s { submitted = true } in
        let t = (enqueue_hosts e is_address room 0 hosts ports s').1 in
        let kept = enqueue_hosts-AllSound 0 hosts ports s' sound in
        elim (Bool-cases (enqueue_hosts e is_address room 0 hosts ports s').0) [
          | inr f ↦ rw (f, submit_accepted) kept
          | inl f ↦ elim (Bool-cases (is_ok t.status)) [
            | inl g ↦
                rw (f, g, submit_accepted)
                  (stop_if_idle-AllSound (pump e.rounds t) (pump-AllSound e.rounds t kept))
            | inr g ↦
                rw (f, g, submit_accepted) (stop_if_idle-AllSound (record t { queue = [] }) kept)
          ]
        ]
