-- ===== src/ScanEngine/Group/Fixture.antt =====
-- A small group on thousandths: one item outstanding, one completed and one queued.
use skan.Base.{ℕ, [], ◌∷◌, pos}
use skan.Floats.Sample.{thousandths}
use skan.ScanEngine.Rtt.{Precision}
use skan.ScanEngine.Timing.{t3, for_id}
use skan.ScanEngine.Metrics.{empty_metrics}
use skan.ScanEngine.Group.{
  ScanWorkState, queued, submitted, completed, ScanWorkItem, ScanGroup, create, new_item, set_state,
}

abbrev pub precision : Precision ℕ ℕ
precision = record { double = thousandths; long = thousandths; widen = λ x. x; narrow = λ x. x }

abbrev pub fresh_group : ScanGroup ℕ ℕ
fresh_group = create precision (b'g' ∷ []) (for_id thousandths t3)

abbrev pub work : ℕ → ScanWorkState → ScanWorkItem
work id s = set_state s (new_item id [] [] (pos 5))

abbrev pub busy_group : ScanGroup ℕ ℕ
busy_group = record fresh_group {
  metrics = record (empty_metrics thousandths) { total_submitted = 2; completed = 1 };
  queue = 1 ∷ 3 ∷ [];
  items = (1, work 1 submitted) ∷ (2, work 2 completed) ∷ (3, work 3 queued) ∷ [];
  next_id = 4;
}
