-- ===== src/ScanEngine/Scheduler/Tests.antt =====
-- Runs of the scheduler on a small group.
use skan.Base.{ℕ, ◌+◌, ◌≡◌, ◌≤◌, refl, true, false, some, [], ◌∷◌, pos, length, arith}
use skan.Base.Assoc.{find}
use skan.Core.{ok, invalid_argument}
use skan.ScanEngine.Congestion.{std_max}
use skan.ScanEngine.Group.{submitted}
use skan.ScanEngine.Group.Fixture.{precision, busy_group, work}
use skan.ScanEngine.Scheduler.{
  Scheduler, Answer, never, ScanCompletion, valid_response, parallelism, can_pump, contains,
  stop_engine, pump, receive, on_timeout, cancel, shutdown,
}
use skan.ScanEngine.Scheduler.Pumping.{pump_ends, pump_bound}
use skan.ScanEngine.Scheduler.Strays.{receive_all, with_counts, strays_counted}
use skan.ScanEngine.Metrics.{empty_metrics}
use skan.ScanEngine.Scheduler.Receiving.{Asked, AllAbandoned, shutdown_abandons, shutdown_silent}

abbrev scheduler : Scheduler ℕ ℕ
scheduler = record {
  group = busy_group;
  pending = (1, record { work = work 1 submitted; sent_at = pos 3; timer_id = 7 }) ∷ [];
  completed_ids = 2 ∷ [];
  expired_ids = 3 ∷ [];
  status = ok;
  started = true;
  stopped = false;
  effects = [];
}

-- The engine numbers its timers from eight, and the transport accepts everything.
abbrev answers : ℕ → Answer
answers i = record { now = pos 10; timer_id = 8 + i; submit_status = ok; memory = never }

abbrev reply : ScanCompletion
reply = record { id = 2; state = valid_response; rtt = some (pos 4) }

pump_ends_example : can_pump (pump precision answers (pos 11) scheduler) ≡ false
pump_ends_example = pump_ends precision answers (pos 11) scheduler

pump_bound_example :
    ((pump precision answers (pos 11) scheduler).group.congestion ≡ busy_group.congestion)
    × (length (pump precision answers (pos 11) scheduler).pending
        ≤ std_max (parallelism scheduler) 1)
pump_bound_example = pump_bound precision answers (pos 11) scheduler

shutdown_abandons_example :
    let t = shutdown (pos 20) scheduler in
    (t.stopped ≡ true)
    × (t.pending ≡ [])
    × (t.group.queue ≡ [])
    × Asked stop_engine t.effects
    × AllAbandoned scheduler.pending t.expired_ids t.effects
shutdown_abandons_example = shutdown_abandons scheduler (pos 20) refl

shutdown_silent_example :
    let t = shutdown (pos 20) scheduler in
    (receive precision true answers (pos 21) t reply ≡ t)
    × (on_timeout precision true answers (pos 21) t 2 ≡ t)
    × (cancel precision answers (pos 21) t 2 ≡ (invalid_argument, t))
    × (shutdown (pos 21) t ≡ t)
shutdown_silent_example = shutdown_silent precision scheduler (pos 20) (pos 21) true answers reply

-- A second reply for a completed probe, one for an expired probe and one for none.
strays_counted_example :
    receive_all precision true answers
      (pos 12)
      scheduler
      (reply ∷ record reply { id = 3 } ∷ record reply { id = 9 } ∷ reply ∷ [])
    ≡ with_counts scheduler 2 1
unfolding find contains empty_metrics
strays_counted_example =
    strays_counted precision true answers (pos 12) scheduler
      (reply ∷ record reply { id = 3 } ∷ record reply { id = 9 } ∷ reply ∷ []) refl
      (refl, (refl, (refl, (refl, tt)))) (omega arith) (omega arith)
