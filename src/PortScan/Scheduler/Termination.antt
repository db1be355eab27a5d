-- ===== src/PortScan/Scheduler/Termination.antt =====
-- The scans of src/portscan/port_scheduler.cpp end: a sequence of calls can only time out as many
-- pending probes as there are attempts.
use skan.Base.{
  ℕ, ◌+◌, ◌^◌, ◌≤◌, ◌<◌, ℤ, ltz, ◌≡◌, refl, ap, ◌∙◌, not, ◌&&◌, ◌||◌, Option, none, some, List, [],
  ◌∷◌, arith, if◌then◌else◌, Bool-cases, Option-cases, inl, inr,
}
use skan.Base.Assoc.{find, erase, sum_of-modify}
use skan.ScanEngine.Rtt.{Precision, or_else}
use skan.PortScan.Types.{tcp_connect, same_probe, PortState, error, ScanReason}
use skan.PortScan.Probes.{PortResponse, Assessment, assessed, refuses}
use skan.PortScan.Scheduler.State.{Pending, PortScanScheduler, Surroundings}
use skan.PortScan.Scheduler.Attempt.{same_port_state, max_retries}
use skan.PortScan.Scheduler.Handlers.{is_epoch, weigh, accept, receive, on_timeout}
use skan.PortScan.Scheduler.Run.{Call, responds, times_out, retry_is_ready, act, run_calls}
use skan.PortScan.Scheduler.Attempts.{left, pending_left, attempts, attempts-or_else}
use skan.PortScan.Scheduler.Allowance.{max_retries-or_else}
use skan.PortScan.Scheduler.Spending.{
  attempts-ended, attempts-on_retry_ready, max_retries-on_retry_ready, max_retries-note_response,
  max_retries-note_timeout, max_retries-complete_entry, attempts-complete_entry,
  max_retries-finish_attempt,
}

-- Evidence that is kept does not touch the work.
weigh-work :
    (state : PortState) (reason : ScanReason) (at : ℤ) (entry : Pending)
    → (weigh state reason at entry).work ≡ entry.work
unfolding weigh
weigh-work state reason at entry = elim (Option-cases entry.candidate_state) [
  | inl e ↦ rw e refl
  | inr (candidate, e) ↦
      elim (Bool-cases (not entry.conflict && not (same_port_state candidate state))) [
        | inl f ↦ rw (e, f) refl
        | inr f ↦ rw (e, f) refl
      ]
]

module _ {D L : Type 0} where
  -- One where a timeout finds the probe that it is for.
  abbrev pub live : PortScanScheduler D L → ℕ → ℕ
  live s id = or_else (find id s.pending) 0 (λ entry. or_else s.probe 0 (λ probe. 1))

  -- Branches on an option, by its cases.
  spent-or_else :
      {A : Type 0} (bound : ℕ) (o : Option A) (s : PortScanScheduler D L)
      (f : A → PortScanScheduler D L) (g : A → ℕ) (n : ℕ)
      → attempts bound s ≤ n
      → ((a : A) → o ≡ some a → attempts bound (f a) + g a ≤ n)
      → attempts bound (or_else o s f) + or_else o 0 g ≤ n
  spent-or_else bound none s f g n h k = omega arith
  spent-or_else bound (some a) s f g n h k = k a refl

  less-or_else :
      {A : Type 0} (bound : ℕ) (o : Option A) (s : PortScanScheduler D L)
      (f : A → PortScanScheduler D L) (n : ℕ)
      → attempts bound s < n
      → ((a : A) → attempts bound (f a) < n)
      → attempts bound (or_else o s f) + 1 ≤ n
  less-or_else bound none s f n h k = omega arith
  less-or_else bound (some a) s f n h k = omega (arith, k a)

module _ {D L : Type 0} (P : Precision D L) where
  max_retries-accept :
      (e : Surroundings) (response : PortResponse) (entry : Pending) (assessment : Assessment)
      (s : PortScanScheduler D L)
      → max_retries (accept P e response entry assessment s) ≡ max_retries s
  unfolding accept
  max_retries-accept e response entry (refuses status) s = refl
  max_retries-accept e response entry (assessed state reason) s =
      let at = if is_epoch response.received_at then e.now else response.received_at in
      let at_once = same_port_state state error || same_probe s.config.method tcp_connect in
      elim (Bool-cases (ltz at entry.started_at)) [
        | inl f ↦ rw f refl
        | inr f ↦ elim (Bool-cases at_once) [
          | inl g ↦ rw (f, g) (max_retries-complete_entry P e response.id entry state reason at s)
          | inr g ↦ rw (f, g) refl
        ]
      ]

  attempts-accept :
      (e : Surroundings) (bound : ℕ) (response : PortResponse) (entry : Pending)
      (assessment : Assessment) (s : PortScanScheduler D L)
      → bound < 2 ^ 64
      → max_retries s ≡ bound
      → find response.id s.pending ≡ some entry
      → attempts bound (accept P e response entry assessment s) ≤ attempts bound s
  unfolding accept
  attempts-accept e bound response entry (refuses status) s small h found = omega arith
  attempts-accept e bound response entry (assessed state reason) s small h found =
      let at = if is_epoch response.received_at then e.now else response.received_at in
      let at_once = same_port_state state error || same_probe s.config.method tcp_connect in
      let ended =
        attempts-complete_entry P e bound response.id entry state reason at s small h found in
      elim (Bool-cases (ltz at entry.started_at)) [
        | inl f ↦ rw f (omega arith)
        | inr f ↦ elim (Bool-cases at_once) [
          | inl g ↦ rw (f, g) (omega (arith, ended))
          | inr g ↦
              rw
                (
                  f,
                  g,
                  sum_of-modify (pending_left bound) response.id (weigh state reason at) s.pending
                      λ v. ap (left bound) (weigh-work state reason at v),
                )
                (omega arith)
        ]
      ]

  max_retries-on_timeout :
      (e : Surroundings) (id : ℕ) (s : PortScanScheduler D L)
      → max_retries (on_timeout P e id s) ≡ max_retries s
  unfolding on_timeout
  max_retries-on_timeout e id s =
      max_retries-or_else (find id s.pending) s _ (max_retries s) refl λ entry h.
        max_retries-or_else s.probe s _ (max_retries s) refl λ probe k.
          max_retries-or_else entry.candidate_state _ _ (max_retries s)
            (max_retries-finish_attempt e entry.work probe.timeout_state probe.timeout_reason none _
              ∙ max_retries-note_timeout P (record s { pending = erase id s.pending }))
            λ state c.
              max_retries-finish_attempt e entry.work state entry.candidate_reason _ _
              ∙ max_retries-note_response P _ (record s { pending = erase id s.pending })

  -- What a call does to the number of allowed retries: nothing.
  max_retries-act :
      (call : Call) (s : PortScanScheduler D L) → max_retries (act P call s) ≡ max_retries s
  unfolding receive
  max_retries-act (responds e response) s =
      max_retries-or_else (find response.id s.pending) s _ (max_retries s) refl λ entry h.
        max_retries-or_else s.probe s _ (max_retries s) refl
          λ probe k. max_retries-accept e response entry (probe.assess response entry.submission) s
  max_retries-act (times_out e id) s = max_retries-on_timeout e id s
  max_retries-act (retry_is_ready e id) s = max_retries-on_retry_ready e id s

  -- A timeout that finds its probe uses an attempt up.
  attempts-on_timeout :
      (e : Surroundings) (bound id : ℕ) (s : PortScanScheduler D L)
      → bound < 2 ^ 64
      → max_retries s ≡ bound
      → attempts bound (on_timeout P e id s) + live s id ≤ attempts bound s
  unfolding on_timeout
  attempts-on_timeout e bound id s small h =
      let s' = record s { pending = erase id s.pending } in
      spent-or_else bound (find id s.pending) s _ _ _ (omega arith) λ entry found.
        spent-or_else bound s.probe s _ _ _ (omega arith) λ probe k.
          less-or_else bound entry.candidate_state _ _ (attempts bound s)
            (attempts-ended e bound id entry probe.timeout_state probe.timeout_reason none s _ small
              (max_retries-note_timeout P s' ∙ h) found refl refl refl)
            λ state.
              attempts-ended e bound id entry state entry.candidate_reason _ s _ small
                (max_retries-note_response P _ s' ∙ h) found refl refl refl

  -- The timeouts of a sequence of calls that find the probe that they are for.
  abbrev pub spent : List Call → PortScanScheduler D L → ℕ
  spent [] s = 0
  spent (responds e response ∷ calls) s = spent calls (act P (responds e response) s)
  spent (times_out e id ∷ calls) s = live s id + spent calls (act P (times_out e id) s)
  spent (retry_is_ready e id ∷ calls) s = spent calls (act P (retry_is_ready e id) s)

  pub attempts-run_calls :
      (bound : ℕ) (calls : List Call) (s : PortScanScheduler D L)
      → bound < 2 ^ 64
      → max_retries s ≡ bound
      → attempts bound (run_calls P calls s) + spent calls s ≤ attempts bound s
  unfolding receive
  attempts-run_calls bound [] s small h = omega arith
  attempts-run_calls bound (responds e response ∷ calls) s small h =
      let rest =
        attempts-run_calls bound calls (act P (responds e response) s) small
          (max_retries-act (responds e response) s ∙ h) in
      let one : attempts bound (receive P e response s) ≤ attempts bound s =
        attempts-or_else bound (find response.id s.pending) s _ (attempts bound s) (omega arith)
          λ entry found.
            attempts-or_else bound s.probe s _ (attempts bound s) (omega arith) λ probe k.
              attempts-accept e bound response entry (probe.assess response entry.submission) s
                small h found in
      omega (arith, one, rest)
  attempts-run_calls bound (times_out e id ∷ calls) s small h =
      let rest =
        attempts-run_calls bound calls (act P (times_out e id) s) small
          (max_retries-act (times_out e id) s ∙ h) in
      omega (arith, attempts-on_timeout e bound id s small h, rest)
  attempts-run_calls bound (retry_is_ready e id ∷ calls) s small h =
      let rest =
        attempts-run_calls bound calls (act P (retry_is_ready e id) s) small
          (max_retries-act (retry_is_ready e id) s ∙ h) in
      omega (arith, attempts-on_retry_ready e bound id s, rest)

  -- From every state of the scheduler and whatever the surroundings answer, the timeouts that find the
  -- probe that they are for are at most as many as the attempts that are left: one for each item that
  -- is queued, pending or put off, and its retries. The number of allowed retries is a 64-bit word.
  pub timeouts_are_bounded :
      (calls : List Call) (s : PortScanScheduler D L)
      → max_retries s < 2 ^ 64
      → attempts (max_retries s) (run_calls P calls s) + spent calls s ≤ attempts (max_retries s) s
  timeouts_are_bounded calls s small = attempts-run_calls (max_retries s) calls s small refl
