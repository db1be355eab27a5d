-- ===== src/ScanEngine/Scheduler.antt =====
-- include/scanengine/adaptive_scheduler.hpp and src/scanengine/adaptive_scheduler.cpp: the scheduler
-- that keeps as many probes in flight as the congestion controller allows.
--
-- The io engine, the transport, the clock and the allocator answer through a value of `Answer` for
-- each round of the loop in `pump`; the cancellations and the stop that the scheduler asks of them
-- are kept as a list of effects, the latest first. The transport is taken to call back after
-- `submit` has returned, not from within it.
pub mod Pumping
pub mod Receiving
pub mod Strays
mod Tests
use skan.Base.{
  ℕ, zero, suc, Bool, true, false, ◌&&◌, ◌||◌, not, Option, none, some, List, [], ◌∷◌, ◌++◌, ltb,
  ◌==◌, if◌then◌else◌, increment, length, ℤ, pos, ltz, ◌+ℤ◌, ◌-ℤ◌, ◌^◌, scale, div_trunc,
}
use skan.Base.Assoc.{Assoc, find, emplace, erase}
use skan.Core.{StatusCode, ok, invalid_argument, memory_error, internal_error, not_found, is_ok}
use skan.Floats.{Floats}
use skan.ScanEngine.Congestion
use skan.ScanEngine.Congestion.{std_max, CongestionController}
use skan.ScanEngine.Rtt
use skan.ScanEngine.Rtt.{Precision, or_else}
use skan.ScanEngine.Metrics.{ScanMetrics, set_parallelism, record_rtt}
use skan.ScanEngine.Group
use skan.ScanEngine.Group.{ScanGroup, ScanWorkItem, submitted}

-- `enum class ScanCompletionState`
pub data ScanCompletionState : Type 0 where
  valid_response timeout duplicate late_response malformed_response failed : ScanCompletionState

-- `struct ScanCompletion`
pub record ScanCompletion : Type 0 where
  pub id : ℕ
  pub state : ScanCompletionState
  pub rtt : Option ℤ

-- `struct Pending`
pub record Pending : Type 0 where
  pub work : ScanWorkItem
  pub sent_at : ℤ
  pub timer_id : ℕ

-- What the scheduler asks of the io engine and the transport, other than a timer and a submission.
pub data Effect : Type 0 where
  cancel_timer : ℕ → Effect
  cancel_probe : ℕ → Effect
  stop_engine : Effect

-- `class AdaptiveScheduler`, with the group that it drives.
pub record Scheduler (D L : Type 0) : Type 0 where
  pub group : ScanGroup D L
  pub pending : Assoc Pending
  pub completed_ids : List ℕ
  pub expired_ids : List ℕ
  pub status : StatusCode
  pub started : Bool
  pub stopped : Bool
  pub effects : List Effect

-- Where in one round of `pump` an allocation fails.
pub data OutOfMemory : Type 0 where
  never at_next at_schedule at_emplace at_submit : OutOfMemory

-- What the surroundings answer in one round of `pump`: the clock's reading, the engine's timer, zero
-- for none, the transport's status, and the allocation that fails.
pub record Answer : Type 0 where
  pub now : ℤ
  pub timer_id : ℕ
  pub submit_status : StatusCode
  pub memory : OutOfMemory

-- `completed_ids_.find(id) != completed_ids_.end()`
pub contains : ℕ → List ℕ → Bool
contains k [] = false
contains k (j ∷ ids) = j == k || contains k ids

-- `completed_ids_.insert(id)`
pub insert : ℕ → List ℕ → List ℕ
insert k ids = if contains k ids then ids else k ∷ ids

-- A time point of a nanosecond clock, some milliseconds later.
abbrev pub later : ℤ → ℤ → ℤ
later t milliseconds = t +ℤ scale (10 ^ 6) milliseconds

module _ {D : Type 0} where
  count_malformed : ScanMetrics D → ScanMetrics D
  count_malformed m = record m { malformed_responses = increment m.malformed_responses }

  pub count_duplicate : ScanMetrics D → ScanMetrics D
  count_duplicate m = record m { duplicate_responses = increment m.duplicate_responses }

  pub count_late : ScanMetrics D → ScanMetrics D
  count_late m = record m { late_responses = increment m.late_responses }

-- The loop of `shutdown` over the pending probes.
abandon_each : Assoc Pending → List ℕ → List Effect → List ℕ × List Effect
abandon_each [] expired effects = (expired, effects)
abandon_each ((id, pending) ∷ rest) expired effects =
    abandon_each rest (insert id expired)
      (cancel_probe id ∷ cancel_timer pending.timer_id ∷ effects)

module _ {D L : Type 0} where
  -- `group_.congestion().state().current_parallelism`
  abbrev pub parallelism : Scheduler D L → ℕ
  parallelism s = s.group.congestion.state.current_parallelism

  abbrev with_metrics : Scheduler D L → (ScanMetrics D → ScanMetrics D) → Scheduler D L
  with_metrics s f = record s { group = record s.group { metrics = f s.group.metrics } }

  -- `finish_if_idle`
  pub finish_if_idle : ℤ → Scheduler D L → Scheduler D L
  finish_if_idle now s =
      if s.started && not s.stopped && length s.group.queue == 0 && length s.pending == 0
      then record s {
        group = record s.group { metrics = record s.group.metrics { completed_at = now } };
        effects = stop_engine ∷ s.effects;
      }
      else s

  -- `update_adaptive_state`
  pub update_adaptive_state : Scheduler D L → Scheduler D L
  update_adaptive_state s = with_metrics s λ m. record m {
    current_parallelism = s.group.congestion.state.current_parallelism;
    estimated_drop_rate = s.group.congestion.state.drop_rate;
  }

  -- The condition of the loop in `pump`.
  abbrev pub can_pump : Scheduler D L → Bool
  can_pump s =
      is_ok s.status
      && not s.stopped
      && ltb 0 (length s.group.queue)
      && ltb (length s.pending) (parallelism s)

  -- A round that fails after `mark_submitted`: the item is failed, and the loop is left.
  abbrev give_up : StatusCode → ℕ → Scheduler D L → Bool × Scheduler D L
  give_up status id s =
      (false, record s { group = (Group.mark_failed s.group id).1; status = status })

  -- The `catch` of a round.
  out_of_memory : ℕ → ℕ → Scheduler D L → Bool × Scheduler D L
  out_of_memory timer id s = give_up memory_error id (record s {
    pending = erase id s.pending;
    effects = cancel_probe id ∷ cancel_timer timer ∷ s.effects;
  })

  -- What follows a submission that the transport accepts.
  abbrev note_pending : Scheduler D L → Scheduler D L
  note_pending s = with_metrics s λ m.
      set_parallelism m (length s.pending)
        (std_max m.maximum_observed_parallelism (length s.pending))

  -- The transport's answer, once the probe is registered.
  submit_registered : Answer → ℕ → Scheduler D L → Bool × Scheduler D L
  unfolding out_of_memory
  submit_registered a id s = elim a.memory [
    | at_submit ↦ out_of_memory a.timer_id id s
    | _ ↦
        if is_ok a.submit_status
        then (true, note_pending s)
        else give_up a.submit_status id (record s {
          pending = erase id s.pending;
          effects = cancel_timer a.timer_id ∷ s.effects;
        })
  ]

  -- The body of the `try` in a round: the timer, the registration and the submission.
  try_submit : Answer → ScanWorkItem → Scheduler D L → Bool × Scheduler D L
  unfolding out_of_memory submit_registered
  try_submit a work s = elim a.memory [
    | at_schedule ↦ out_of_memory 0 work.id s
    | at_emplace ↦
        if a.timer_id == 0
        then give_up internal_error work.id s
        else out_of_memory a.timer_id work.id s
    | _ ↦
        if a.timer_id == 0
        then give_up internal_error work.id s
        else or_else (find work.id s.pending)
            (submit_registered a work.id (record s {
              pending =
                  emplace work.id (record { work = work; sent_at = a.now; timer_id = a.timer_id })
                    s.pending;
            }))
            λ old.
              give_up internal_error work.id
                (record s { effects = cancel_timer a.timer_id ∷ s.effects })
  ]

  -- The opening of `complete_pending`, `fail_pending` and `cancel`: the timer and the probe are
  -- cancelled, and the entry goes.
  drop_pending : ℕ → Pending → Scheduler D L → Scheduler D L
  drop_pending id pending s = record s {
    pending = erase id s.pending;
    effects = cancel_probe id ∷ cancel_timer pending.timer_id ∷ s.effects;
  }

  -- The end of `fail_pending` before the adaptive state is updated.
  fail_dropped : ℕ → Scheduler D L → Scheduler D L
  fail_dropped id s = record s {
    completed_ids = insert id s.completed_ids;
    group = (Group.mark_failed s.group id).1;
  }

  -- `shutdown`
  pub shutdown : ℤ → Scheduler D L → Scheduler D L
  unfolding abandon_each
  shutdown now s =
      if s.stopped
      then s
      else with_metrics
          (record s {
            stopped = true;
            expired_ids = abandoned.0;
            effects = stop_engine ∷ abandoned.1;
            pending = [];
            group = Group.cancel_all s.group;
          })
          (λ m. record m { completed_at = now })
    where
      abandoned : List ℕ × List Effect
      abandoned = abandon_each s.pending s.expired_ids s.effects

  -- `complete`
  pub is_complete : Scheduler D L → Bool
  is_complete s = s.started && length s.group.queue == 0 && length s.pending == 0

-- The round trip of a completion: the reported one, or the time since the probe was sent.
sample_of : ℤ → ScanCompletion → Pending → ℤ
sample_of now completion pending =
    or_else completion.rtt
      (if ltz pending.sent_at now then div_trunc (now -ℤ pending.sent_at) (10 ^ 6) else pos 0)
      (λ rtt. rtt)

module _ {D L : Type 0} (P : Precision D L) where
  open P use {double as F}

  -- `group_.congestion()` and its drop rate, after an event.
  abbrev with_congestion :
      ScanGroup D L → (CongestionController D → CongestionController D) → ScanGroup D L
  with_congestion g f =
      let c = f g.congestion in
      record g {
        congestion = c;
        metrics = record g.metrics { estimated_drop_rate = c.state.drop_rate };
      }

  -- The state changes of `on_timeout` before the retry.
  expire : Scheduler D L → ℕ → Scheduler D L
  expire s id = record s {
    effects = cancel_probe id ∷ s.effects;
    pending = erase id s.pending;
    expired_ids = insert id s.expired_ids;
    group = with_congestion (Group.mark_timed_out s.group id).1 (Congestion.on_timeout F);
  }

  -- The retry of `on_timeout`.
  retry : Bool → Scheduler D L → ScanWorkItem → Scheduler D L
  retry pushed s work =
      let (granted, group) = Group.requeue_for_retry pushed s.group work in
      let s' = record s { group = group } in if granted then s' else update_adaptive_state s'

  -- The state changes of `complete_pending` between the removal and the adaptive state.
  settle : ℕ → ℤ → Scheduler D L → Scheduler D L
  settle id sample s =
      let g = with_congestion (Group.mark_completed s.group id).1 (Congestion.on_response F) in
      record s {
        group = record g {
          metrics = record_rtt F g.metrics sample;
          rtt = (Rtt.observe P g.rtt sample Rtt.valid_response).1;
        };
        completed_ids = insert id s.completed_ids;
      }

  -- One round of the loop in `pump`, for the item that the queue gave: whether to go on, and the
  -- scheduler.
  launch : Answer → ScanWorkItem → Scheduler D L → Bool × Scheduler D L
  unfolding try_submit
  launch a work s =
      if marked.0
      then try_submit a
          (record work { state = submitted; submitted_at = a.now; deadline = deadline })
          (record s { group = marked.1 })
      else (false, record s { status = internal_error })
    where
      deadline : ℤ
      deadline = later a.now (Rtt.timeout_ms P s.group.rtt)

      marked : Bool × ScanGroup D L
      marked = Group.mark_submitted s.group work.id a.now deadline

  -- One round of the loop in `pump`.
  round : Answer → Scheduler D L → Bool × Scheduler D L
  unfolding launch
  round a s =
      let (next, group) = Group.next_queued s.group in
      let s' = record s { group = group } in
      or_else next (false, s')
        λ work. elim a.memory [
          | at_next ↦ (false, record s' { status = memory_error })
          | _ ↦ launch a work s'
        ]

  -- The loop in `pump`; the answers are taken in order, from the number of the round.
  pump_loop : ℕ → (ℕ → Answer) → ℕ → Scheduler D L → Scheduler D L
  pump_loop zero answers i s = s
  pump_loop (suc fuel) answers i s = elim (can_pump s) [
    | false ↦ s
    | true ↦
        let (go_on, s') = round (answers i) s in
        elim go_on [ true ↦ pump_loop fuel answers (suc i) s' | false ↦ s' ]
  ]

  -- `pump`. Each round takes an identifier off the queue, so its length is fuel enough.
  pub pump : (ℕ → Answer) → ℤ → Scheduler D L → Scheduler D L
  unfolding pump_loop
  pump answers now s = finish_if_idle now (pump_loop (length s.group.queue) answers 0 s)

  -- `on_timeout`; the first Boolean says whether the queue of the group can allocate for a retry.
  pub on_timeout : Bool → (ℕ → Answer) → ℤ → Scheduler D L → ℕ → Scheduler D L
  on_timeout pushed answers now s id =
      or_else (find id s.pending) s λ pending.
        if s.stopped then s else pump answers now (retry pushed (expire s id) pending.work)

  -- `complete_pending`, where the round trip is measured from the clock if it was not reported.
  pub complete_pending : (ℕ → Answer) → ℤ → Scheduler D L → ScanCompletion → Scheduler D L
  complete_pending answers now s completion = or_else (find completion.id s.pending) s λ pending.
      pump answers now (
        update_adaptive_state (
          settle completion.id (sample_of now completion pending)
            (drop_pending completion.id pending s)))

  -- `fail_pending`
  pub fail_pending : (ℕ → Answer) → ℤ → Scheduler D L → ℕ → Scheduler D L
  fail_pending answers now s id = or_else (find id s.pending) s λ pending.
      pump answers now (update_adaptive_state (fail_dropped id (drop_pending id pending s)))

  -- `receive`, for an identifier that is pending.
  receive_pending : Bool → (ℕ → Answer) → ℤ → Scheduler D L → ScanCompletion → Scheduler D L
  receive_pending pushed answers now s completion = elim completion.state [
    | valid_response ↦ complete_pending answers now s completion
    | timeout ↦ on_timeout pushed answers now s completion.id
    | malformed_response ↦ fail_pending answers now (with_metrics s count_malformed) completion.id
    | failed ↦ fail_pending answers now s completion.id
    | duplicate ↦ with_metrics s count_duplicate
    | late_response ↦ with_metrics s count_late
  ]

  -- `receive`
  pub receive : Bool → (ℕ → Answer) → ℤ → Scheduler D L → ScanCompletion → Scheduler D L
  unfolding receive_pending
  receive pushed answers now s completion =
      if s.stopped
      then s
      else or_else (find completion.id s.pending)
          (if contains completion.id s.completed_ids
            then with_metrics s count_duplicate
            else if contains completion.id s.expired_ids
            then with_metrics s count_late
            else s)
          λ pending. receive_pending pushed answers now s completion

  -- `cancel`, which pumps and then looks once more for an idle scheduler.
  pub cancel : (ℕ → Answer) → ℤ → Scheduler D L → ℕ → StatusCode × Scheduler D L
  cancel answers now s id =
      if not s.started || s.stopped
      then (invalid_argument, s)
      else or_else (find id s.pending)
          (if (Group.cancel s.group id).0
            then (ok, resume (record s { group = (Group.cancel s.group id).1 }))
            else (not_found, s))
          λ pending.
            let s' = drop_pending id pending s in
            (
              ok,
              resume (record s' {
                expired_ids = insert id s.expired_ids;
                group = (Group.cancel s.group id).1;
              }),
            )
    where
      resume : Scheduler D L → Scheduler D L
      resume t = finish_if_idle now (pump answers now t)

  -- `start`, with the engine's initialization status.
  pub start : StatusCode → (ℕ → Answer) → ℤ → Scheduler D L → StatusCode × Scheduler D L
  start initialization answers now s =
      if s.started
      then (invalid_argument, s)
      else if not (is_ok initialization)
      then (initialization, record s { status = initialization })
      else if not (is_ok (Group.validate P s.group))
      then (invalid_argument, record s { status = invalid_argument })
      else (begun.status, begun)
    where
      begun : Scheduler D L
      begun = finish_if_idle now (
          pump answers now
            (with_metrics (record s { started = true }) (λ m. record m { started_at = now })))
