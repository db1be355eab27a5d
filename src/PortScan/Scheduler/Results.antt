-- ===== src/PortScan/Scheduler/Results.antt =====
-- The calls of src/portscan/port_scheduler.cpp from outside, and the number of probes that they
-- answer for.
use skan.Base.{
  ℕ, ◌+◌, ◌*◌, ℤ, ltz, ◌≡◌, refl, ap, ◌∙◌, Bool, true, false, ◌&&◌, ◌||◌, Option, none, some, List,
  [], ◌∷◌, ◌++◌, map, length, length-append, length-map, arith, ◌==◌, if◌then◌else◌, Bool-cases,
  Option-cases, inl, inr,
}
use skan.Base.Assoc.{Assoc, find, erase, modify, length-emplace, length-erase, length-modify}
use skan.Core.{is_ok}
use skan.ScanEngine.Rtt.{Precision}
use skan.PortScan.Types
use skan.PortScan.Types.{Port, ScanProbeType, tcp_connect, same_probe, PortState, error, ScanReason}
use skan.PortScan.Probes.{PortResponse, Assessment, assessed, refuses}
use skan.PortScan.Scheduler.State.{
  Host, WorkItem, Pending, PortScanScheduler, Surroundings, append_terminal_result, new_work,
}
use skan.PortScan.Scheduler.Pump.{pump}
use skan.PortScan.Scheduler.Attempt.{
  Verdict, retries, reports, same_port_state, defer_retry, settle, decide, max_retries,
  finish_attempt,
}
use skan.PortScan.Scheduler.Handlers.{
  is_epoch, complete_entry, weigh, accept, receive, on_timeout, on_retry_ready,
}
use skan.PortScan.Scheduler.Submit.{valid_host_address, enqueue_hosts, submit_accepted}
use skan.PortScan.Scheduler.Conservation.{
  AllRoomy, total, total-pump, total-or_else, total-stop_if_idle,
}

-- Every host has a valid address.
abbrev pub all_addressed : (List ℕ → Bool) → List Host → Bool
all_addressed is_address [] = true
all_addressed is_address (host ∷ hosts) =
    valid_host_address is_address host && all_addressed is_address hosts

module _ {D L : Type 0} (e : Surroundings) (roomy : AllRoomy e) where
  total-append :
      (work : WorkItem) (state : PortState) (reason : ScanReason) (rtt : Option D)
      (s : PortScanScheduler D L)
      → total (append_terminal_result e.stored e.now work state reason rtt s) ≡ total s + 1
  unfolding append_terminal_result
  total-append work state reason rtt s =
      rw roomy.stored (omega (arith, length-append {0} s.results (_ ∷ [])))

  total-pending :
      (m : Assoc Pending) (s : PortScanScheduler D L)
      → length m ≡ length s.pending
      → total (record s { pending = m }) ≡ total s
  total-pending m s h = omega arith

  -- A retry that is granted is put off; one that is refused changes no number.
  abbrev Deferred : PortScanScheduler D L → Bool × PortScanScheduler D L → Type 0
  Deferred s (true, s') = total s' ≡ total s + 1
  Deferred s (false, s') = total s' ≡ total s

  defer_retry-Deferred :
      (work : WorkItem) (s : PortScanScheduler D L) → Deferred s (defer_retry e work s)
  unfolding defer_retry
  defer_retry-Deferred work s = elim (Bool-cases (s.next_retry_id == 0)) [
    | inl f ↦ rw f refl
    | inr f ↦ elim (Bool-cases (e.retry_timer == 0)) [
      | inl g ↦ rw (f, g) refl
      | inr g ↦ elim (Option-cases (find s.next_retry_id s.deferred_retries)) [
        | inr (old, h) ↦ rw (f, g, h) refl
        | inl h ↦
            rw (f, g, h, roomy.retry_stored)
              (omega (arith, length-emplace s.next_retry_id _ s.deferred_retries h))
      ]
    ]
  ]

  total-settle_retry :
      (work : WorkItem) (rtt : Option D) (s : PortScanScheduler D L)
      (out : Bool × PortScanScheduler D L)
      → Deferred s out
      → total (
          if out.0
          then out.1
          else append_terminal_result e.stored e.now work error Types.internal_error rtt out.1)
        ≡ total s + 1
  total-settle_retry work rtt s (true, s') h = h
  total-settle_retry work rtt s (false, s') h =
      total-append work error Types.internal_error rtt s' ∙ ap (λ n. n + 1) h

  total-settle :
      (rtt : Option D) (verdict : Verdict) (s : PortScanScheduler D L)
      → total (settle e rtt verdict s) ≡ total s + 1
  unfolding settle
  total-settle rtt (reports work state reason) s = total-append work state reason rtt s
  total-settle rtt (retries work) s =
      total-settle_retry work rtt s (defer_retry e work s) (defer_retry-Deferred work s)

  pub total-finish_attempt :
      (work : WorkItem) (state : PortState) (reason : ScanReason) (rtt : Option D)
      (s : PortScanScheduler D L)
      → total (finish_attempt e work state reason rtt s) ≡ total s + 1
  unfolding finish_attempt
  total-finish_attempt work state reason rtt s =
      let verdict = decide s.config.method (max_retries s) work state reason in
      total-pump e.rounds (settle e rtt verdict s) roomy.rounds ∙ total-settle rtt verdict s

  -- The timer of a retry moves its work to the queue.
  pub total-on_retry_ready :
      (id : ℕ) (s : PortScanScheduler D L) → total (on_retry_ready e id s) ≡ total s
  unfolding on_retry_ready
  total-on_retry_ready id s =
      total-or_else (find id s.deferred_retries) s _ (total s) refl λ retry f. rw roomy.pushed (
        total-pump e.rounds
          (record s {
            deferred_retries = erase id s.deferred_retries;
            queue = retry.work ∷ s.queue;
          })
          roomy.rounds
        ∙ omega (arith, length-erase id retry s.deferred_retries f))

  module _ (P : Precision D L) where
    -- A probe whose attempt ends leaves the pending ones.
    total-complete_entry :
        (id : ℕ) (entry : Pending) (state : PortState) (reason : ScanReason) (completed_at : ℤ)
        (s : PortScanScheduler D L)
        → find id s.pending ≡ some entry
        → total (complete_entry P e id entry state reason completed_at s) ≡ total s
    unfolding complete_entry
    total-complete_entry id entry state reason completed_at s h =
        total-finish_attempt entry.work state reason _ _
        ∙ omega (arith, length-erase id entry s.pending h)

    total-accept :
        (response : PortResponse) (entry : Pending) (assessment : Assessment)
        (s : PortScanScheduler D L)
        → find response.id s.pending ≡ some entry
        → total (accept P e response entry assessment s) ≡ total s
    unfolding accept
    total-accept response entry (refuses status) s h = refl
    total-accept response entry (assessed state reason) s h =
        let at = if is_epoch response.received_at then e.now else response.received_at in
        let m = modify response.id (weigh state reason at) s.pending in
        let at_once = same_port_state state error || same_probe s.config.method tcp_connect in
        elim (Bool-cases (ltz at entry.started_at)) [
          | inl f ↦ rw f refl
          | inr f ↦ elim (Bool-cases at_once) [
            | inl g ↦ rw (f, g) (total-complete_entry response.id entry state reason at s h)
            | inr g ↦
                rw (f, g)
                  (total-pending m s (length-modify response.id (weigh state reason at) s.pending))
          ]
        ]

    pub total-receive :
        (response : PortResponse) (s : PortScanScheduler D L)
        → total (receive P e response s) ≡ total s
    unfolding receive
    total-receive response s =
        total-or_else (find response.id s.pending) s _ (total s) refl λ entry h.
          total-or_else s.probe s _ (total s) refl
            λ probe k. total-accept response entry (probe.assess response entry.submission) s h

    pub total-on_timeout :
        (id : ℕ) (s : PortScanScheduler D L) → total (on_timeout P e id s) ≡ total s
    unfolding on_timeout
    total-on_timeout id s = total-or_else (find id s.pending) s _ (total s) refl λ entry h.
        total-or_else s.probe s _ (total s) refl λ probe k.
          total-or_else entry.candidate_state _ _ (total s)
            (total-finish_attempt entry.work probe.timeout_state probe.timeout_reason none _
              ∙ omega (arith, length-erase id entry s.pending h))
            λ state c.
              total-finish_attempt entry.work state entry.candidate_reason _ _
              ∙ omega (arith, length-erase id entry s.pending h)

module _ {D L : Type 0} where
  total-new_works :
      (host : Host) (ports : List Port) (s : PortScanScheduler D L)
      → total (record s { queue = s.queue ++ map (new_work host) ports }) ≡ total s + length ports
  total-new_works host ports s =
      omega
        (arith, length-append s.queue (map (new_work host) ports), length-map (new_work host) ports)

  -- The loop of `submit` puts the probes of every host into the queue.
  total-enqueue_hosts :
      (e : Surroundings) (is_address : List ℕ → Bool) (room : ℕ → Bool)
      → ((i : ℕ) → room i ≡ true)
      → (i : ℕ) (hosts : List Host) (ports : List Port) (s : PortScanScheduler D L)
      → all_addressed is_address hosts ≡ true
      → total (enqueue_hosts e is_address room i hosts ports s).1
        ≡ total s + length hosts * length ports
  unfolding enqueue_hosts
  total-enqueue_hosts e is_address room all_room i [] ports s h = omega arith
  total-enqueue_hosts e is_address room all_room i (host ∷ hosts) ports s h =
      let valid : valid_host_address is_address host ≡ true = ground arith in
      let rest : all_addressed is_address hosts ≡ true = ground arith in
      rw (all_room i, valid, enqueue_hosts)
        (total-enqueue_hosts e is_address room all_room (i + 1) hosts ports _ rest
          ∙ ap (λ n. n + length hosts * length ports) (total-new_works host ports s)
          ∙ ground arith)

  -- It ends with no failure.
  complete-enqueue_hosts :
      (e : Surroundings) (is_address : List ℕ → Bool) (room : ℕ → Bool)
      → ((i : ℕ) → room i ≡ true)
      → (i : ℕ) (hosts : List Host) (ports : List Port) (s : PortScanScheduler D L)
      → all_addressed is_address hosts ≡ true
      → (enqueue_hosts e is_address room i hosts ports s).0 ≡ true
  unfolding enqueue_hosts
  complete-enqueue_hosts e is_address room all_room i [] ports s h = refl
  complete-enqueue_hosts e is_address room all_room i (host ∷ hosts) ports s h =
      let valid : valid_host_address is_address host ≡ true = ground arith in
      let rest : all_addressed is_address hosts ≡ true = ground arith in
      rw (all_room i, valid, enqueue_hosts)
        (complete-enqueue_hosts e is_address room all_room (i + 1) hosts ports _ rest)

  status-enqueue_hosts :
      (e : Surroundings) (is_address : List ℕ → Bool) (room : ℕ → Bool)
      → ((i : ℕ) → room i ≡ true)
      → (i : ℕ) (hosts : List Host) (ports : List Port) (s : PortScanScheduler D L)
      → all_addressed is_address hosts ≡ true
      → (enqueue_hosts e is_address room i hosts ports s).1.status ≡ s.status
  unfolding enqueue_hosts
  status-enqueue_hosts e is_address room all_room i [] ports s h = refl
  status-enqueue_hosts e is_address room all_room i (host ∷ hosts) ports s h =
      let valid : valid_host_address is_address host ≡ true = ground arith in
      let rest : all_addressed is_address hosts ≡ true = ground arith in
      rw (all_room i, valid, enqueue_hosts)
        (status-enqueue_hosts e is_address room all_room (i + 1) hosts ports _ rest)

  pub total-submit_accepted :
      (e : Surroundings) (is_address : List ℕ → Bool) (room : ℕ → Bool)
      → AllRoomy e
      → ((i : ℕ) → room i ≡ true)
      → (hosts : List Host) (ports : List Port) (s : PortScanScheduler D L)
      → all_addressed is_address hosts ≡ true
      → is_ok s.status ≡ true
      → total (submit_accepted e is_address room hosts ports s)
        ≡ total s + length hosts * length ports
  unfolding submit_accepted
  total-submit_accepted e is_address room roomy all_room hosts ports s h k =
      let s' = record s { submitted = true } in
      let queued = (enqueue_hosts e is_address room 0 hosts ports s').1 in
      let f = complete-enqueue_hosts e is_address room all_room 0 hosts ports s' h in
      let g = ap is_ok (status-enqueue_hosts e is_address room all_room 0 hosts ports s' h) ∙ k in
      rw (f, g)
        (total-stop_if_idle (pump e.rounds queued)
          ∙ total-pump e.rounds queued roomy.rounds
          ∙ total-enqueue_hosts e is_address room all_room 0 hosts ports s' h)
