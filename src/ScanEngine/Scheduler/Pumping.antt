-- ===== src/ScanEngine/Scheduler/Pumping.antt =====
-- The loop in `pump`: it ends because nothing more may be launched, and launches no more than the
-- congestion controller allows.
use skan.Base.{
  ℕ, zero, suc, ◌+◌, ◌≤◌, ◌<◌, ◌≡◌, refl, inl, inr, Bool, true, false, none, some, List, [], ◌∷◌,
  arith, length, ℤ, Option-cases,
}
use skan.Base.Assoc.{Assoc, find, emplace, length-emplace, length-erase-le}
use skan.Core.{is_ok}
use skan.ScanEngine.Rtt.{Precision, or_else}
use skan.ScanEngine.Congestion.{std_max}
use skan.ScanEngine.Rtt
use skan.ScanEngine.Group.{
  ScanGroup, ScanWorkItem, submitted, first_queued, next_queued, mark_submitted, mark_failed,
}
use skan.ScanEngine.Scheduler.{
  Scheduler, Pending, Answer, parallelism, can_pump, later, finish_if_idle, try_submit, launch,
  round, pump_loop, pump,
}

-- What the methods of the group leave alone.
record SameQueue {D L : Type 0} (g h : ScanGroup D L) : Type 0 where
  queue : h.queue ≡ g.queue
  congestion : h.congestion ≡ g.congestion

mark_failed-SameQueue :
    {D L : Type 0} (g : ScanGroup D L) (id : ℕ) → SameQueue g (mark_failed g id).1
unfolding mark_failed
mark_failed-SameQueue g id = elim (Option-cases (find id g.items)) [
  | inl e ↦ rw e (record { queue = refl; congestion = refl })
  | inr (stored, e) ↦ rw e (ground arith)
]

mark_submitted-SameQueue :
    {D L : Type 0} (g : ScanGroup D L) (id : ℕ) (t d : ℤ) → SameQueue g (mark_submitted g id t d).1
unfolding mark_submitted
mark_submitted-SameQueue g id t d = elim (Option-cases (find id g.items)) [
  | inl e ↦ rw e (record { queue = refl; congestion = refl })
  | inr (stored, e) ↦ rw e (ground arith)
]

-- The search takes at least the identifier that it returns off the queue.
first_queued-shorter :
    (items : Assoc ScanWorkItem) (queue : List ℕ) (item : ScanWorkItem)
    → (first_queued queue items).0 ≡ some item
    → length (first_queued queue items).1 < length queue
unfolding first_queued
first_queued-shorter items [] item e = absurd (ground arith)
first_queued-shorter items (id ∷ queue) item e =
    ground (arith, first_queued-shorter items queue item)

first_queued-none :
    (items : Assoc ScanWorkItem) (queue : List ℕ)
    → (first_queued queue items).0 ≡ none
    → (first_queued queue items).1 ≡ []
unfolding first_queued
first_queued-none items [] e = refl
first_queued-none items (id ∷ queue) e = ground (arith, first_queued-none items queue)

module _ {D L : Type 0} where
  -- The outcome of a round on a scheduler.
  record Outcome (s : Scheduler D L) (r : Bool × Scheduler D L) : Type 0 where
    goes_on : r.0 ≡ true → r.1.group.queue ≡ s.group.queue
    gives_up : r.0 ≡ false → is_ok r.1.status ≡ false
    congestion : r.1.group.congestion ≡ s.group.congestion
    pending : length r.1.pending ≤ length s.pending + 1

  try_submit-Outcome :
      (a : Answer) (work : ScanWorkItem) (s : Scheduler D L) → Outcome s (try_submit a work s)
  unfolding try_submit
  try_submit-Outcome a work s =
      let entry : Pending = record { work = work; sent_at = a.now; timer_id = a.timer_id } in
      ground (
        arith,
        mark_failed-SameQueue s.group work.id,
        length-emplace work.id entry s.pending,
        length-erase-le work.id s.pending,
        length-erase-le work.id (emplace work.id entry s.pending),
      )

  -- The outcome of a round of the loop: the queue is shorter, or the loop has nothing left to do.
  record Progress (s : Scheduler D L) (r : Bool × Scheduler D L) : Type 0 where
    shorter : r.0 ≡ true → length r.1.group.queue < length s.group.queue
    ends : r.0 ≡ false → can_pump r.1 ≡ false
    congestion : r.1.group.congestion ≡ s.group.congestion
    pending : length r.1.pending ≤ length s.pending + 1

module _ {D L : Type 0} (P : Precision D L) where
  launch-Outcome :
      (a : Answer) (work : ScanWorkItem) (s : Scheduler D L) → Outcome s (launch P a work s)
  unfolding launch
  launch-Outcome a work s =
      let deadline = later a.now (Rtt.timeout_ms P s.group.rtt) in
      let marked = mark_submitted s.group work.id a.now deadline in
      ground (
        arith,
        mark_submitted-SameQueue s.group work.id a.now deadline,
        try_submit-Outcome a
            (record work { state = submitted; submitted_at = a.now; deadline = deadline })
            (record s { group = marked.1 }),
      )

  round-Progress : (a : Answer) (s : Scheduler D L) → Progress s (round P a s)
  unfolding round next_queued
  round-Progress a s = elim (Option-cases (first_queued s.group.queue s.group.items).0) [
    | inl e ↦ ground (arith, first_queued-none s.group.items s.group.queue)
    | inr (work, e) ↦ ground (
      arith,
      first_queued-shorter s.group.items s.group.queue work,
      launch-Outcome a work (record s { group = (next_queued s.group).1 }),
    )
  ]

  loop_ends :
      (fuel : ℕ) (answers : ℕ → Answer) (i : ℕ) (s : Scheduler D L)
      → length s.group.queue ≤ fuel
      → can_pump (pump_loop P fuel answers i s) ≡ false
  unfolding pump_loop
  loop_ends zero answers i s h = ground arith
  loop_ends (suc fuel) answers i s h = ground (
    arith,
    round-Progress (answers i) s,
    loop_ends fuel answers (suc i) (round P (answers i) s).1,
  )

  -- What the loop keeps: the congestion controller, and the bound on the probes in flight.
  loop_bound :
      (fuel : ℕ) (answers : ℕ → Answer) (i : ℕ) (s : Scheduler D L) (n : ℕ)
      → parallelism s ≤ n
      → length s.pending ≤ n
      → ((pump_loop P fuel answers i s).group.congestion ≡ s.group.congestion)
        × (length (pump_loop P fuel answers i s).pending ≤ n)
  unfolding pump_loop
  loop_bound zero answers i s n h k = (refl, k)
  loop_bound (suc fuel) answers i s n h k = ground (
    arith,
    round-Progress (answers i) s,
    loop_bound fuel answers (suc i) (round P (answers i) s).1 n,
  )

  -- When `pump` returns, the condition of its loop is false: an error was recorded, the scheduler
  -- was stopped, the queue is empty, or as many probes are in flight as the controller allows.
  pub pump_ends :
      (answers : ℕ → Answer) (now : ℤ) (s : Scheduler D L) → can_pump (pump P answers now s) ≡ false
  unfolding pump finish_if_idle
  pump_ends answers now s =
      ground (arith, loop_ends (length s.group.queue) answers 0 s (omega arith))

  -- `pump` leaves the congestion controller alone, and never has more probes in flight than the
  -- controller allows, or than there were before if those were more.
  pub pump_bound :
      (answers : ℕ → Answer) (now : ℤ) (s : Scheduler D L)
      → ((pump P answers now s).group.congestion ≡ s.group.congestion)
        × (length (pump P answers now s).pending ≤ std_max (parallelism s) (length s.pending))
  unfolding pump finish_if_idle
  pump_bound answers now s = ground (
    arith,
    loop_bound (length s.group.queue) answers 0 s (std_max (parallelism s) (length s.pending)),
  )
