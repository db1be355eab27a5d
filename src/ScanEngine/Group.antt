-- ===== src/ScanEngine/Group.antt =====
-- include/scanengine/scan_group.hpp and src/scanengine/scan_group.cpp: the work items of a scan,
-- their queue and their life cycle. A method returns its result and the new group. The clock's
-- reading, and whether an allocation succeeds, are arguments of the methods that depend on them.
pub mod Lifecycle
pub mod Queueing
pub mod Outstanding
pub mod Fixture
mod Tests
use skan.Base.{
  ℕ, ◌+◌, ◌-◌, ◌%◌, ◌^◌, Bool, true, false, ◌&&◌, ◌||◌, not, Option, none, some, List, [], ◌∷◌,
  ◌++◌, ltb, leb, ◌==◌, if◌then◌else◌, increment, word_max, length, ℤ, ltz,
}
use skan.Base.Assoc.{Assoc, find, emplace, modify, count_if}
use skan.Core.{StatusCode, ok, invalid_argument, memory_error, is_ok}
use skan.Floats.{Floats}
use skan.ScanEngine.Congestion
use skan.ScanEngine.Congestion.{CongestionController}
use skan.ScanEngine.Rtt
use skan.ScanEngine.Rtt.{RttEstimator, Precision, or_else}
use skan.ScanEngine.Timing
use skan.ScanEngine.Timing.{TimingProfile}
use skan.ScanEngine.Metrics.{
  ScanMetrics, empty_metrics, epoch, set_parallelism, record_submission, record_completion,
  record_timeout, record_failure, record_retry, record_cancellation, record_target_failure,
  record_timeout_backoff,
}

-- `enum class ScanWorkState`
pub data ScanWorkState : Type 0 where
  queued submitted completed timed_out cancelled failed : ScanWorkState

-- `==` on states
unfoldable pub same_state : ScanWorkState → ScanWorkState → Bool
same_state queued queued = true
same_state submitted submitted = true
same_state completed completed = true
same_state timed_out timed_out = true
same_state cancelled cancelled = true
same_state failed failed = true
same_state _ _ = false

-- `struct ScanWorkItem`
pub record ScanWorkItem : Type 0 where
  pub id : ℕ
  pub target : List ℕ
  pub protocol_metadata : List ℕ
  pub created_at : ℤ
  pub submitted_at : ℤ
  pub deadline : ℤ
  pub retry_count : ℕ
  pub state : ScanWorkState

-- `class ScanGroup`
pub record ScanGroup (D L : Type 0) : Type 0 where
  pub name : List ℕ
  pub profile : TimingProfile D
  pub rtt : RttEstimator D L
  pub congestion : CongestionController D
  pub metrics : ScanMetrics D
  pub queue : List ℕ
  pub items : Assoc ScanWorkItem
  pub next_id : ℕ

-- The item that `enqueue(target, protocol_metadata, id)` builds.
abbrev new_item : ℕ → List ℕ → List ℕ → ℤ → ScanWorkItem
new_item id target protocol_metadata now = record {
  id = id;
  target = target;
  protocol_metadata = protocol_metadata;
  created_at = now;
  submitted_at = epoch;
  deadline = epoch;
  retry_count = 0;
  state = queued;
}

-- `iterator->second.state = state`
abbrev pub set_state : ScanWorkState → ScanWorkItem → ScanWorkItem
set_state s item = record item { state = s }

-- The states that `cancel` refuses.
abbrev pub is_settled : ScanWorkState → Bool
is_settled s = same_state s completed || same_state s cancelled || same_state s failed

abbrev pub or_now : ℤ → ℤ → ℤ
or_now t now = if not (ltz t epoch || ltz epoch t) then now else t

-- The lambda `subtract` of `outstanding_metric`.
abbrev subtract : ℕ → ℕ → ℕ
subtract outstanding value = if ltb outstanding value then 0 else outstanding - value

module _ {D : Type 0} where
  -- `outstanding_metric`
  unfoldable pub outstanding_metric : ScanMetrics D → ℕ
  outstanding_metric m =
      subtract (subtract (subtract (subtract m.total_submitted m.completed) m.timed_out) m.failed)
        m.cancelled

module _ {D L : Type 0} (P : Precision D L) where
  open P use {double as F}

  -- `ScanGroup::ScanGroup`
  unfoldable pub create : List ℕ → TimingProfile D → ScanGroup D L
  create name p = record {
    name = name;
    profile = p;
    rtt = Rtt.create P (record {
      minimum_timeout = p.minimum_timeout;
      maximum_timeout = p.maximum_timeout;
      alpha = F.literal 1 8;
      beta = F.literal 1 4;
      multiplier = p.rtt_multiplier;
    });
    congestion = Congestion.create F (record {
      min_parallelism = p.min_parallelism;
      max_parallelism = p.max_parallelism;
      initial_parallelism = p.initial_parallelism;
      timeout_threshold = p.timeout_threshold;
      recovery_threshold = p.recovery_threshold;
      backoff_factor = p.backoff_factor;
      drop_rate_alpha = p.drop_rate_alpha;
    });
    metrics = empty_metrics F;
    queue = [];
    items = [];
    next_id = 1;
  }

  -- `validate`
  unfoldable pub validate : ScanGroup D L → StatusCode
  validate g =
      if is_ok (Timing.validate F g.profile) && Congestion.is_valid F g.congestion
      then ok
      else invalid_argument

  -- The body of the `try` in `enqueue(ScanWorkItem)`, where both allocations succeed.
  admit : ScanGroup D L → ScanWorkItem → ScanGroup D L
  admit g item = record g {
    items = emplace item.id item g.items;
    queue = g.queue ++ (item.id ∷ []);
    metrics = record m { total_queued = increment m.total_queued };
    next_id =
        if leb g.next_id item.id && ltb item.id word_max then increment item.id else g.next_id;
  }
    where
      open g use {metrics as m}

  -- `enqueue(ScanWorkItem)`. The Booleans say whether `emplace` and `push_back` can allocate; if
  -- only the second fails, the item is in the map and not in the queue.
  unfoldable pub enqueue_item :
      ℤ → Bool → Bool → ScanGroup D L → ScanWorkItem → StatusCode × ScanGroup D L
  unfolding validate admit
  enqueue_item now emplaced pushed g item =
      if not (is_ok (validate g))
        || item.id == 0
        || not (same_state item.state queued)
        || or_else (find item.id g.items) false (λ i. true)
      then (invalid_argument, g)
      else if not emplaced
      then (memory_error, g)
      else if not pushed
      then (memory_error, record g { items = emplace item.id stamped g.items })
      else (ok, admit g stamped)
    where
      stamped : ScanWorkItem
      stamped = record item { created_at = or_now item.created_at now }

  -- `enqueue(target, protocol_metadata, id)`; the identifier is set only on success.
  unfoldable pub enqueue :
      ℤ → Bool → Bool → ScanGroup D L → List ℕ → List ℕ → StatusCode × Option ℕ × ScanGroup D L
  unfolding validate
  enqueue now emplaced pushed g target protocol_metadata =
      if not (is_ok (validate g)) || g.next_id == 0 then (invalid_argument, none, g) else (
        result.0,
        (if is_ok result.0 then some ((result.1.next_id + word_max) % 2 ^ 64) else none),
        result.1,
      )
    where
      result : StatusCode × ScanGroup D L
      result =
          enqueue_item now emplaced pushed (record g { next_id = increment g.next_id })
            (new_item g.next_id target protocol_metadata now)

-- The loop of `next_queued`: what is left of the queue, and the first item that is still queued.
unfoldable pub first_queued : List ℕ → Assoc ScanWorkItem → Option ScanWorkItem × List ℕ
first_queued [] items = (none, [])
first_queued (id ∷ queue) items =
    let rest = first_queued queue items in
    or_else (find id items) rest
      λ item. if same_state item.state queued then (some item, queue) else rest

-- The states in which `requeue_for_retry` finds the item.
abbrev may_retry : ScanWorkState → Bool
may_retry s = same_state s timed_out || same_state s failed

module _ {D : Type 0} where
  -- The loop of `cancel_all`.
  unfoldable pub cancel_each :
      Assoc ScanWorkItem → ScanMetrics D → Assoc ScanWorkItem × ScanMetrics D
  cancel_each [] m = ([], m)
  cancel_each ((id, item) ∷ items) m =
      let live = same_state item.state queued || same_state item.state submitted in
      let (rest, m') = cancel_each items (if live then record_cancellation m else m) in
      ((id, (if live then set_state cancelled item else item)) ∷ rest, m')

module _ {D L : Type 0} where
  -- `next_queued`
  unfoldable pub next_queued : ScanGroup D L → Option ScanWorkItem × ScanGroup D L
  next_queued g =
      let (item, rest) = first_queued g.queue g.items in (item, record g { queue = rest })

  -- `requeue_for_retry`; the Boolean says whether `push_back` can allocate.
  unfoldable pub requeue_for_retry : Bool → ScanGroup D L → ScanWorkItem → Bool × ScanGroup D L
  requeue_for_retry pushed g item =
      or_else (find item.id g.items) (false, g)
        λ stored.
          if not (may_retry stored.state) || leb g.profile.max_retries item.retry_count
          then (false, g)
          else if not pushed
          then (
            false,
            record g {
              items = modify item.id (λ i. set_state failed again) g.items;
              metrics =
                  record_target_failure (record_failure g.metrics (outstanding_metric g.metrics));
            },
          )
          else (
            true,
            record g {
              items = modify item.id (λ i. again) g.items;
              queue = g.queue ++ (item.id ∷ []);
              metrics = record_timeout_backoff (record_retry g.metrics);
            },
          )
    where
      again : ScanWorkItem
      again = record item { state = queued; retry_count = increment item.retry_count }

  -- `cancel`
  unfoldable pub cancel : ScanGroup D L → ℕ → Bool × ScanGroup D L
  cancel g id =
      or_else (find id g.items) (false, g)
        λ stored. if is_settled stored.state then (false, g) else (
          true,
          record g {
            items = modify id (set_state cancelled) g.items;
            metrics = record_cancellation g.metrics;
          },
        )

  -- `cancel_all`
  unfoldable pub cancel_all : ScanGroup D L → ScanGroup D L
  unfolding cancel_each
  cancel_all g =
      let (items, m) = cancel_each g.items g.metrics in
      record g { items = items; metrics = m; queue = [] }

  -- What `mark_completed`, `mark_timed_out` and `mark_failed` share: the guard on the state, and
  -- the new state.
  settle :
      ScanWorkState → (ScanMetrics D → ScanMetrics D) → ScanGroup D L → ℕ → Bool × ScanGroup D L
  settle s note g id =
      or_else (find id g.items) (false, g)
        λ stored.
          if same_state stored.state submitted
          then (
            true,
            record g { items = modify id (set_state s) g.items; metrics = note g.metrics },
          )
          else (false, g)

  -- `mark_submitted`
  unfoldable pub mark_submitted : ScanGroup D L → ℕ → ℤ → ℤ → Bool × ScanGroup D L
  mark_submitted g id submitted_at deadline =
      or_else (find id g.items) (false, g)
        λ stored.
          if same_state stored.state queued
          then (
            true,
            record g {
              items =
                  modify id
                    (λ i. record i {
                      state = submitted;
                      submitted_at = submitted_at;
                      deadline = deadline;
                    })
                    g.items;
              metrics = record_submission g.metrics (increment (outstanding_metric g.metrics));
            },
          )
          else (false, g)

  -- `mark_completed`
  unfoldable pub mark_completed : ScanGroup D L → ℕ → Bool × ScanGroup D L
  unfolding settle
  mark_completed = settle completed (λ m. record_completion m (outstanding_metric m))

  -- `mark_timed_out`
  unfoldable pub mark_timed_out : ScanGroup D L → ℕ → Bool × ScanGroup D L
  unfolding settle
  mark_timed_out = settle timed_out (λ m. record_timeout m (outstanding_metric m))

  -- `mark_failed`
  unfoldable pub mark_failed : ScanGroup D L → ℕ → Bool × ScanGroup D L
  unfolding settle
  mark_failed = settle failed λ m. record_target_failure (record_failure m (outstanding_metric m))

  -- `update_parallelism`
  unfoldable pub update_parallelism : ScanGroup D L → ScanGroup D L
  update_parallelism g =
      let outstanding = outstanding_metric g.metrics in
      record g { metrics = set_parallelism g.metrics outstanding outstanding }

  -- `queued_count`
  abbrev pub queued_count : ScanGroup D L → ℕ
  queued_count g = length g.queue

  -- `outstanding_count`
  abbrev pub outstanding_count : ScanGroup D L → ℕ
  outstanding_count g = count_if (λ item. same_state item.state submitted) g.items

  -- `total_count`
  abbrev pub total_count : ScanGroup D L → ℕ
  total_count g = length g.items

  -- `state`
  unfoldable pub state_of : ScanGroup D L → ℕ → Option ScanWorkState
  state_of g id = or_else (find id g.items) none (λ item. some item.state)
