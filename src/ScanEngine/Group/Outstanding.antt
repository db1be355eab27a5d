-- ===== src/ScanEngine/Group/Outstanding.antt =====
-- The number of submitted items, against the counters that `outstanding_metric` reads.
use skan.Base.{
  ℕ, ◌+◌, ◌≤◌, ◌<◌, ◌≡◌, Bool, true, some, List, [], ◌∷◌, arith, ℤ, word_max, length, increment,
  Option-cases, inl, inr,
}
use skan.Base.Assoc.{find, count_if-modify, count_if-emplace}
use skan.ScanEngine.Rtt.{Precision}
use skan.ScanEngine.Metrics.{
  record_cancellation, record_submission, record_completion, record_timeout, record_failure,
  record_retry, record_target_failure, record_timeout_backoff,
}
use skan.ScanEngine.Group.{
  queued, submitted, completed, timed_out, failed, cancelled, cancel, same_state, ScanWorkItem,
  ScanGroup, set_state, or_now, new_item, enqueue_item, enqueue, next_queued, requeue_for_retry,
  mark_submitted, mark_completed, mark_timed_out, mark_failed, outstanding_metric,
  outstanding_count,
}
use skan.ScanEngine.Group.Lifecycle.{
  Call, adds, enqueues, takes, requeues, cancels, cancels_all, submits, completes, times_out, fails,
  step, run,
}

-- Each submitted probe was completed, timed out or failed, or is still outstanding.
pub record IsBalanced {D L : Type 0} (g : ScanGroup D L) : Type 0 where
  pub sum :
      g.metrics.total_submitted
      ≡ g.metrics.completed + g.metrics.timed_out + g.metrics.failed + outstanding_count g
  pub uncancelled : g.metrics.cancelled ≡ 0

-- Every call but the cancellations, and a retry that runs out of memory.
abbrev pub IsPlain : Call → Type 0
IsPlain (requeues pushed item) = pushed ≡ true
IsPlain (cancels id) = ⊥
IsPlain cancels_all = ⊥
IsPlain _ = Unit

abbrev pub AllPlain : List Call → Type 0
AllPlain [] = Unit
AllPlain (c ∷ cs) = IsPlain c × AllPlain cs

abbrev is_submitted : ScanWorkItem → Bool
is_submitted i = same_state i.state submitted

module _ {D L : Type 0} (g : ScanGroup D L) (v : IsBalanced g)
    (room : g.metrics.total_submitted + 1 ≤ word_max) where
  -- What a plain call keeps, with how far the number of submissions may grow.
  abbrev Keeps : ScanGroup D L → Type 0
  Keeps h = IsBalanced h × (h.metrics.total_submitted ≤ g.metrics.total_submitted + 1)

  submit_balanced : (id : ℕ) (t d : ℤ) → Keeps (mark_submitted g id t d).1
  unfolding mark_submitted same_state record_submission
  submit_balanced id t d = elim (Option-cases (find id g.items)) [
    | inl e ↦ rw e (v, omega arith)
    | inr (stored, e) ↦ rw e (
        ground (
          arith,
          count_if-modify is_submitted id
              (λ (i : ScanWorkItem). record i { state = submitted; submitted_at = t; deadline = d })
              stored g.items e,
        ))
  ]

  complete_balanced : (id : ℕ) → Keeps (mark_completed g id).1
  unfolding mark_completed same_state record_completion
  complete_balanced id = elim (Option-cases (find id g.items)) [
    | inl e ↦ rw e (v, omega arith)
    | inr (stored, e) ↦
        rw e
          (ground (arith, count_if-modify is_submitted id (set_state completed) stored g.items e))
  ]

  time_out_balanced : (id : ℕ) → Keeps (mark_timed_out g id).1
  unfolding mark_timed_out same_state record_timeout
  time_out_balanced id = elim (Option-cases (find id g.items)) [
    | inl e ↦ rw e (v, omega arith)
    | inr (stored, e) ↦
        rw e
          (ground (arith, count_if-modify is_submitted id (set_state timed_out) stored g.items e))
  ]

  fail_balanced : (id : ℕ) → Keeps (mark_failed g id).1
  unfolding mark_failed same_state record_failure record_target_failure
  fail_balanced id = elim (Option-cases (find id g.items)) [
    | inl e ↦ rw e (v, omega arith)
    | inr (stored, e) ↦
        rw e (ground (arith, count_if-modify is_submitted id (set_state failed) stored g.items e))
  ]

  requeue_balanced : (item : ScanWorkItem) → Keeps (requeue_for_retry true g item).1
  unfolding requeue_for_retry same_state record_retry record_timeout_backoff
  requeue_balanced item = elim (Option-cases (find item.id g.items)) [
    | inl e ↦ rw e (v, omega arith)
    | inr (stored, e) ↦ rw e (
        ground (
          arith,
          count_if-modify is_submitted item.id
              (λ (i : ScanWorkItem). record item {
                state = queued;
                retry_count = increment item.retry_count;
              })
              stored g.items e,
        ))
  ]

  take_balanced : Keeps (next_queued g).1
  unfolding next_queued
  take_balanced = (record { sum = v.sum; uncancelled = v.uncancelled }, omega arith)

module _ {D L : Type 0} (P : Precision D L) where
  add-IsBalanced :
      (g : ScanGroup D L) (now : ℤ) (emplaced pushed : Bool) (item : ScanWorkItem)
      → IsBalanced g
      → let h = (enqueue_item P now emplaced pushed g item).1 in
        IsBalanced h × (h.metrics.total_submitted ≡ g.metrics.total_submitted)
  unfolding enqueue_item same_state
  add-IsBalanced g now emplaced pushed item v = elim (Option-cases (find item.id g.items)) [
    | inl e ↦ rw e (
        ground (
          arith,
          count_if-emplace is_submitted item.id
              (record item { created_at = or_now item.created_at now }) g.items e,
        ))
    | inr (stored, e) ↦ rw e (ground arith)
  ]

  enqueue-IsBalanced :
      (g : ScanGroup D L) (now : ℤ) (emplaced pushed : Bool) (target metadata : List ℕ)
      → IsBalanced g
      → let h = (enqueue P now emplaced pushed g target metadata).2 in
        IsBalanced h × (h.metrics.total_submitted ≡ g.metrics.total_submitted)
  unfolding enqueue
  enqueue-IsBalanced g now emplaced pushed target metadata v = ground (
    arith,
    add-IsBalanced (record g { next_id = increment g.next_id }) now emplaced pushed
        (new_item g.next_id target metadata now)
        (record { sum = v.sum; uncancelled = v.uncancelled }),
  )

  step_balanced :
      (g : ScanGroup D L) (c : Call)
      → IsPlain c
      → (v : IsBalanced g) (room : g.metrics.total_submitted + 1 ≤ word_max)
      → Keeps g v room (step P g c)
  unfolding step
  step_balanced g (adds now emplaced pushed item) p v r =
      let k = add-IsBalanced g now emplaced pushed item v in (k.0, omega arith)
  step_balanced g (enqueues now emplaced pushed target metadata) p v r =
      let k = enqueue-IsBalanced g now emplaced pushed target metadata v in (k.0, omega arith)
  step_balanced g takes p v r = take_balanced g v r
  step_balanced g (requeues pushed item) p v r = rw p (requeue_balanced g v r item)
  step_balanced g (cancels id) p v r = absurd p
  step_balanced g cancels_all p v r = absurd p
  step_balanced g (submits id t d) p v r = submit_balanced g v r id t d
  step_balanced g (completes id) p v r = complete_balanced g v r id
  step_balanced g (times_out id) p v r = time_out_balanced g v r id
  step_balanced g (fails id) p v r = fail_balanced g v r id

  run-IsBalanced :
      (g : ScanGroup D L) (cs : List Call)
      → AllPlain cs
      → IsBalanced g
      → g.metrics.total_submitted + length cs ≤ word_max
      → IsBalanced (run P g cs)
  unfolding run
  run-IsBalanced g [] p v r = v
  run-IsBalanced g (c ∷ cs) p v r =
      let k = step_balanced g c p.0 v (omega arith) in
      run-IsBalanced (step P g c) cs p.1 k.0 (omega arith)

  outstanding_metric-balanced :
      (g : ScanGroup D L) → IsBalanced g → outstanding_metric g.metrics ≡ outstanding_count g
  unfolding outstanding_metric
  outstanding_metric-balanced g v = ground arith

  -- From a group whose counters agree with its items, after any sequence of calls without a
  -- cancellation or a failed allocation in a retry, the outstanding number that is computed from the
  -- counters is the number of submitted items, while the submissions fit a word.
  pub outstanding_agrees :
      (g : ScanGroup D L) (cs : List Call)
      → AllPlain cs
      → IsBalanced g
      → g.metrics.total_submitted + length cs ≤ word_max
      → outstanding_metric (run P g cs).metrics ≡ outstanding_count (run P g cs)
  outstanding_agrees g cs p v r =
      outstanding_metric-balanced (run P g cs) (run-IsBalanced g cs p v r)

  -- Cancelling a queued item while counters and items agree and some item is outstanding makes the
  -- outstanding number from the counters one less than the number of submitted items.
  pub cancel_queued_undercounts :
      (g : ScanGroup D L) (id : ℕ) (item : ScanWorkItem)
      → IsBalanced g
      → g.metrics.total_submitted ≤ word_max
      → 0 < outstanding_count g
      → find id g.items ≡ some item
      → item.state ≡ queued
      → let h = (cancel g id).1 in
        (outstanding_count h ≡ outstanding_count g)
        × (outstanding_metric h.metrics + 1 ≡ outstanding_count h)
  unfolding cancel outstanding_metric same_state record_cancellation
  cancel_queued_undercounts g id item v r o e q =
      rw e (ground (arith, count_if-modify is_submitted id (set_state cancelled) item g.items e))
