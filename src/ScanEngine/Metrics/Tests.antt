-- ===== src/ScanEngine/Metrics/Tests.antt =====
-- Runs of the metrics on thousandths.
use skan.Base.{◌≡◌, [], ◌∷◌, arith}
use skan.Floats.Sample.{thousandths}
use skan.ScanEngine.Metrics.{empty_metrics}
use skan.ScanEngine.Metrics.Peak.{
  submission, completion, apply_all, peak-highest, submissions_saturate,
}

peak-highest_example :
    (apply_all
      (empty_metrics thousandths)
      (submission 1 ∷ submission 2 ∷ completion 1 ∷ [])).peak_active_probes
    ≡ 2
unfolding empty_metrics
peak-highest_example =
    peak-highest (empty_metrics thousandths) (submission 1 ∷ submission 2 ∷ completion 1 ∷ [])

submissions_saturate_example :
    (apply_all
      (empty_metrics thousandths)
      (submission 1 ∷ completion 0 ∷ submission 1 ∷ [])).total_submitted
    ≡ 2
unfolding empty_metrics
submissions_saturate_example =
    submissions_saturate (empty_metrics thousandths)
      (submission 1 ∷ completion 0 ∷ submission 1 ∷ []) (omega arith)
