-- ===== src/ScanEngine/Group/Tests.antt =====
-- The theorems on the group at a small group.
use skan.Base.{ℕ, ◌+◌, ◌≡◌, refl, true, some, [], ◌∷◌, arith, pos, ◌≤◌}
use skan.Base.Assoc.{find, count_if}
use skan.Core.{ok}
use skan.ScanEngine.Congestion
use skan.ScanEngine.Timing
use skan.ScanEngine.Timing.{t3, for_id}
use skan.Floats.Sample.{thousandths}
use skan.ScanEngine.Metrics.{empty_metrics}
use skan.ScanEngine.Group.{
  ScanGroup, queued, submitted, completed, timed_out, same_state, create, validate, enqueue,
  first_queued, next_queued, requeue_for_retry, cancel, state_of, outstanding_metric,
  outstanding_count,
}
use skan.ScanEngine.Group.Fixture.{precision, fresh_group, busy_group, work}
use skan.ScanEngine.Group.Lifecycle.{
  follows, cancels, cancels_all, fails, submits, completes, times_out, step, run, step-follows,
  final_stays,
}
use skan.ScanEngine.Group.Queueing.{
  FirstWaiting, next_queued-FirstWaiting, requeue_granted, enqueue_succeeds,
}
use skan.ScanEngine.Group.Outstanding.{IsBalanced, outstanding_agrees, cancel_queued_undercounts}

step-follows_example :
    follows (state_of busy_group 1) (state_of (step precision busy_group (times_out 1)) 1) ≡ true
step-follows_example = step-follows precision busy_group (times_out 1) 1

final_stays_example :
    state_of (run precision busy_group (cancels 2 ∷ fails 2 ∷ cancels_all ∷ [])) 2 ≡ some completed
unfolding state_of find
final_stays_example =
    final_stays precision busy_group (cancels 2 ∷ fails 2 ∷ cancels_all ∷ []) 2 completed tt refl

next_queued-FirstWaiting_example :
    let (item, h) = next_queued busy_group in
    FirstWaiting busy_group.items (1 ∷ 3 ∷ []) (item, h.queue) × (h.items ≡ busy_group.items)
next_queued-FirstWaiting_example = next_queued-FirstWaiting busy_group

next_queued_run : (next_queued busy_group).0 ≡ some (work 3 queued)
unfolding next_queued first_queued find same_state
next_queued_run = refl

enqueue_succeeds_example :
    let (status, id, h) = enqueue precision (pos 9) true true fresh_group (b'a' ∷ []) [] in
    (status ≡ ok) × (id ≡ some 1) × (h.queue ≡ 1 ∷ []) × (state_of h 1 ≡ some queued)
unfolding validate create find Congestion.is_valid Congestion.create Timing.validate Timing.for_id
enqueue_succeeds_example =
    enqueue_succeeds precision fresh_group (pos 9) (b'a' ∷ []) [] refl (omega arith) (omega arith)
      refl

busy-IsBalanced : IsBalanced busy_group
unfolding empty_metrics count_if same_state
busy-IsBalanced = record { sum = refl; uncancelled = refl }

outstanding_agrees_example :
    outstanding_metric
      (run precision busy_group (submits 3 (pos 7) (pos 9) ∷ completes 1 ∷ [])).metrics
    ≡ outstanding_count (run precision busy_group (submits 3 (pos 7) (pos 9) ∷ completes 1 ∷ []))
outstanding_agrees_example =
    outstanding_agrees precision busy_group (submits 3 (pos 7) (pos 9) ∷ completes 1 ∷ [])
      (tt, (tt, tt)) busy-IsBalanced (omega arith)

cancel_queued_undercounts_example :
    let h = (cancel busy_group 3).1 in
    (outstanding_count h ≡ outstanding_count busy_group)
    × (outstanding_metric h.metrics + 1 ≡ outstanding_count h)
unfolding find count_if same_state
cancel_queued_undercounts_example =
    cancel_queued_undercounts precision busy_group 3 (work 3 queued) busy-IsBalanced (omega arith)
      (omega arith) refl refl

abbrev retrying_group : ScanGroup ℕ ℕ
retrying_group = record busy_group {
  profile = record (for_id thousandths t3) { max_retries = 2 };
  items = (1, work 1 timed_out) ∷ [];
}

requeue_granted_example :
    let h = (requeue_for_retry true retrying_group (work 1 submitted)).1 in
    (h.queue ≡ 1 ∷ 3 ∷ 1 ∷ [])
    × (find 1 h.items ≡ some (record (work 1 queued) { retry_count = 1 }))
    × (1 ≤ 2)
unfolding requeue_for_retry find same_state
requeue_granted_example = requeue_granted retrying_group true (work 1 submitted) (omega arith) refl
