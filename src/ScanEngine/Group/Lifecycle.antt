-- ===== src/ScanEngine/Group/Lifecycle.antt =====
-- The life cycle of a work item: which state may follow which, under every method of the group.
use skan.Base.{
  ℕ, ◌≡◌, refl, Bool, true, false, ◌||◌, Option, none, some, List, [], ◌∷◌, arith, ◌==◌, ==_iff, ℤ,
  Bool-cases, inl, inr, Option-cases, increment,
}
use skan.Base.Assoc.{Assoc, find, modify, emplace, find-modify, find-emplace}
use skan.ScanEngine.Rtt.{Precision, or_else}
use skan.ScanEngine.Metrics.{
  ScanMetrics, record_cancellation, record_completion, record_timeout, record_failure,
  record_target_failure,
}
use skan.ScanEngine.Group.{
  ScanWorkState, queued, submitted, completed, timed_out, cancelled, failed, same_state,
  ScanWorkItem, ScanGroup, set_state, enqueue_item, enqueue, or_now, new_item, outstanding_metric,
  next_queued, requeue_for_retry, cancel, cancel_each, cancel_all, settle, mark_submitted,
  mark_completed, mark_timed_out, mark_failed, state_of,
}

-- The moves between the states of an item, staying put among them.
abbrev pub may_follow : ScanWorkState → ScanWorkState → Bool
may_follow queued s = same_state s queued || same_state s submitted || same_state s cancelled
may_follow submitted s =
    same_state s submitted
    || same_state s completed
    || same_state s timed_out
    || same_state s failed
    || same_state s cancelled
may_follow timed_out s =
    same_state s timed_out || same_state s queued || same_state s failed || same_state s cancelled
may_follow failed s = same_state s failed || same_state s queued
may_follow completed s = same_state s completed
may_follow cancelled s = same_state s cancelled

-- The same for an identifier, which may be unknown until an item is queued under it.
abbrev pub follows : Option ScanWorkState → Option ScanWorkState → Bool
follows none none = true
follows none (some s) = same_state s queued
follows (some s) none = false
follows (some s) (some t) = may_follow s t

abbrev state_in : Assoc ScanWorkItem → ℕ → Option ScanWorkState
state_in items j = or_else (find j items) none (λ i. some i.state)

may_follow_refl : (s : ScanWorkState) → may_follow s s ≡ true
unfolding same_state
may_follow_refl queued = refl
may_follow_refl _ = refl

follows_refl : (o : Option ScanWorkState) → follows o o ≡ true
follows_refl none = refl
follows_refl (some s) = may_follow_refl s

modify-follows :
    (j k : ℕ) (f : ScanWorkItem → ScanWorkItem) (items : Assoc ScanWorkItem) (stored : ScanWorkItem)
    → find k items ≡ some stored
    → may_follow stored.state (f stored).state ≡ true
    → follows (state_in items j) (state_in (modify k f items) j) ≡ true
modify-follows j k f items stored h m = elim (Bool-cases (k == j)) [
  | inl e ↦ let same : k ≡ j = (==_iff k j).0 e in rw (find-modify j k f items, e, ← same, h) m
  | inr e ↦ rw (find-modify j k f items, e) (follows_refl (state_in items j))
]

module _ {D L : Type 0} (g : ScanGroup D L) (j : ℕ) where
  -- What every method keeps, read at one identifier.
  abbrev Keeps : ScanGroup D L → Type 0
  Keeps h = follows (state_of g j) (state_of h j) ≡ true

  stays : Keeps g
  stays = follows_refl (state_of g j)

  mark_submitted-follows : (id : ℕ) (t d : ℤ) → Keeps (mark_submitted g id t d).1
  unfolding mark_submitted state_of same_state
  mark_submitted-follows id t d = elim (Option-cases (find id g.items)) [
    | inl e ↦ rw e (follows_refl (state_in g.items j))
    | inr (stored, e) ↦ rw e (
        ground (
          arith,
          follows_refl (state_in g.items j),
          modify-follows j id
              (λ (i : ScanWorkItem). record i { state = submitted; submitted_at = t; deadline = d })
              g.items stored e,
        ))
  ]

  settle_follows :
      (s : ScanWorkState) (note : ScanMetrics D → ScanMetrics D) (id : ℕ)
      → may_follow submitted s ≡ true
      → Keeps (settle s note g id).1
  unfolding settle state_of same_state
  settle_follows s note id m = elim (Option-cases (find id g.items)) [
    | inl e ↦ rw e (follows_refl (state_in g.items j))
    | inr (stored, e) ↦ rw e (
        ground (
          arith,
          follows_refl (state_in g.items j),
          modify-follows j id (set_state s) g.items stored e,
        ))
  ]

  cancel-follows : (id : ℕ) → Keeps (cancel g id).1
  unfolding cancel state_of same_state
  cancel-follows id = elim (Option-cases (find id g.items)) [
    | inl e ↦ rw e (follows_refl (state_in g.items j))
    | inr (stored, e) ↦ rw e (
        ground (
          arith,
          follows_refl (state_in g.items j),
          modify-follows j id (set_state cancelled) g.items stored e,
        ))
  ]

  requeue_follows :
      (pushed : Bool) (item : ScanWorkItem) → Keeps (requeue_for_retry pushed g item).1
  unfolding requeue_for_retry state_of same_state
  requeue_follows pushed item = elim (Option-cases (find item.id g.items)) [
    | inl e ↦ rw e (follows_refl (state_in g.items j))
    | inr (stored, e) ↦ rw e (
        ground (
          arith,
          follows_refl (state_in g.items j),
          modify-follows j item.id
              (λ (i : ScanWorkItem). record item {
                state = queued;
                retry_count = increment item.retry_count;
              })
              g.items stored e,
          modify-follows j item.id
              (λ (i : ScanWorkItem). record item {
                state = failed;
                retry_count = increment item.retry_count;
              })
              g.items stored e,
        ))
  ]

  next_queued-follows : Keeps (next_queued g).1
  unfolding next_queued state_of
  next_queued-follows = follows_refl (state_in g.items j)

emplace-follows :
    (j k : ℕ) (item : ScanWorkItem) (items : Assoc ScanWorkItem)
    → find k items ≡ none
    → same_state item.state queued ≡ true
    → follows (state_in items j) (state_in (emplace k item items) j) ≡ true
emplace-follows j k item items h m = elim (Bool-cases (k == j)) [
  | inl e ↦
      let same : k ≡ j = (==_iff k j).0 e in rw (find-emplace j k item items h, e, ← same, h) m
  | inr e ↦ rw (find-emplace j k item items h, e) (follows_refl (state_in items j))
]

cancel_each-follows :
    {D : Type 0} (items : Assoc ScanWorkItem) (m : ScanMetrics D) (j : ℕ)
    → follows (state_in items j) (state_in (cancel_each items m).0 j) ≡ true
unfolding cancel_each find same_state
cancel_each-follows [] m j = refl
cancel_each-follows ((id, item) ∷ items) m j = ground (
  arith,
  may_follow_refl item.state,
  cancel_each-follows items m j,
  cancel_each-follows items (record_cancellation m) j,
)

cancel_all-follows : {D L : Type 0} (g : ScanGroup D L) (j : ℕ) → Keeps g j (cancel_all g)
unfolding cancel_all state_of
cancel_all-follows g j = cancel_each-follows g.items g.metrics j

-- The calls that change a group.
pub data Call : Type 0 where
  adds : ℤ → Bool → Bool → ScanWorkItem → Call
  enqueues : ℤ → Bool → Bool → List ℕ → List ℕ → Call
  takes : Call
  requeues : Bool → ScanWorkItem → Call
  cancels : ℕ → Call
  cancels_all : Call
  submits : ℕ → ℤ → ℤ → Call
  completes : ℕ → Call
  times_out : ℕ → Call
  fails : ℕ → Call

-- The states that no call leaves.
abbrev pub IsFinal : ScanWorkState → Type 0
IsFinal completed = Unit
IsFinal cancelled = Unit
IsFinal _ = ⊥

final_follows :
    (s : ScanWorkState) (o : Option ScanWorkState)
    → IsFinal s
    → follows (some s) o ≡ true
    → o ≡ some s
unfolding same_state
final_follows s none f h = absurd (ground arith)
final_follows s (some t) f h = ground arith

module _ {D L : Type 0} (P : Precision D L) where
  unfoldable pub step : ScanGroup D L → Call → ScanGroup D L
  step g (adds now emplaced pushed item) = (enqueue_item P now emplaced pushed g item).1
  step g (enqueues now emplaced pushed target metadata) =
      (enqueue P now emplaced pushed g target metadata).2
  step g takes = (next_queued g).1
  step g (requeues pushed item) = (requeue_for_retry pushed g item).1
  step g (cancels id) = (cancel g id).1
  step g cancels_all = cancel_all g
  step g (submits id t d) = (mark_submitted g id t d).1
  step g (completes id) = (mark_completed g id).1
  step g (times_out id) = (mark_timed_out g id).1
  step g (fails id) = (mark_failed g id).1

  unfoldable pub run : ScanGroup D L → List Call → ScanGroup D L
  run g [] = g
  run g (c ∷ cs) = run (step g c) cs

  enqueue_item-follows :
      (g : ScanGroup D L) (j : ℕ) (now : ℤ) (emplaced pushed : Bool) (item : ScanWorkItem)
      → Keeps g j (enqueue_item P now emplaced pushed g item).1
  unfolding enqueue_item state_of
  enqueue_item-follows g j now emplaced pushed item = elim (Option-cases (find item.id g.items)) [
    | inl e ↦ rw e (
        ground (
          arith,
          follows_refl (state_in g.items j),
          emplace-follows j item.id (record item { created_at = or_now item.created_at now })
              g.items e,
        ))
    | inr (stored, e) ↦ rw e (ground (arith, follows_refl (state_in g.items j)))
  ]

  enqueue-follows :
      (g : ScanGroup D L) (j : ℕ) (now : ℤ) (emplaced pushed : Bool) (target metadata : List ℕ)
      → Keeps g j (enqueue P now emplaced pushed g target metadata).2
  unfolding enqueue state_of
  enqueue-follows g j now emplaced pushed target metadata = ground (
    arith,
    follows_refl (state_in g.items j),
    enqueue_item-follows (record g { next_id = increment g.next_id }) j now emplaced pushed
        (new_item g.next_id target metadata now),
  )

  -- Each call moves the state of each identifier along the life cycle or leaves it.
  pub step-follows :
      (g : ScanGroup D L) (c : Call) (j : ℕ) → follows (state_of g j) (state_of (step g c) j) ≡ true
  unfolding step mark_completed mark_timed_out mark_failed same_state
  step-follows g (adds now emplaced pushed item) j =
      enqueue_item-follows g j now emplaced pushed item
  step-follows g (enqueues now emplaced pushed target metadata) j =
      enqueue-follows g j now emplaced pushed target metadata
  step-follows g takes j = next_queued-follows g j
  step-follows g (requeues pushed item) j = requeue_follows g j pushed item
  step-follows g (cancels id) j = cancel-follows g j id
  step-follows g cancels_all j = cancel_all-follows g j
  step-follows g (submits id t d) j = mark_submitted-follows g j id t d
  step-follows g (completes id) j =
      settle_follows g j completed (λ m. record_completion m (outstanding_metric m)) id refl
  step-follows g (times_out id) j =
      settle_follows g j timed_out (λ m. record_timeout m (outstanding_metric m)) id refl
  step-follows g (fails id) j =
      settle_follows g j failed
        (λ m. record_target_failure (record_failure m (outstanding_metric m))) id refl

  final_step :
      (g : ScanGroup D L) (c : Call) (j : ℕ) (s : ScanWorkState)
      → IsFinal s
      → state_of g j ≡ some s
      → state_of (step g c) j ≡ some s
  final_step g c j s f e = final_follows s (state_of (step g c) j) f (rw e at (step-follows g c j))

  -- A work item that is completed or cancelled keeps that state through every sequence of calls.
  pub final_stays :
      (g : ScanGroup D L) (cs : List Call) (j : ℕ) (s : ScanWorkState)
      → IsFinal s
      → state_of g j ≡ some s
      → state_of (run g cs) j ≡ some s
  unfolding run
  final_stays g [] j s f e = e
  final_stays g (c ∷ cs) j s f e = final_stays (step g c) cs j s f (final_step g c j s f e)
