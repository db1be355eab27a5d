-- ===== src/ScanEngine/Metrics/Peak.antt =====
-- The peak of the active probes, and counters that saturate.
use Prim.Native.Nat.{min}
use skan.Base.{ℕ, suc, ◌+◌, ◌≤◌, ◌≡◌, refl, List, [], ◌∷◌, arith, word_max}
use skan.ScanEngine.Congestion.{std_max}
use skan.ScanEngine.Metrics.{
  ScanMetrics, record_submission, record_completion, record_timeout, record_failure,
}

-- The four methods that report the number of active probes.
pub data Report : Type 0 where
  submission completion timeout failure : ℕ → Report

abbrev pub active : Report → ℕ
active (submission n) = n
active (completion n) = n
active (timeout n) = n
active (failure n) = n

abbrev pub highest : ℕ → List Report → ℕ
highest peak [] = peak
highest peak (r ∷ rs) = highest (std_max peak (active r)) rs

-- The number of submissions among the reports.
abbrev pub count_submissions : List Report → ℕ
count_submissions [] = 0
count_submissions (submission n ∷ rs) = suc (count_submissions rs)
count_submissions (completion n ∷ rs) = count_submissions rs
count_submissions (timeout n ∷ rs) = count_submissions rs
count_submissions (failure n ∷ rs) = count_submissions rs

count_submissions-cons :
    (r : Report) (rs : List Report)
    → count_submissions (r ∷ rs) ≡ count_submissions (r ∷ []) + count_submissions rs
count_submissions-cons (submission n) rs = omega arith
count_submissions-cons (completion n) rs = omega arith
count_submissions-cons (timeout n) rs = omega arith
count_submissions-cons (failure n) rs = omega arith

module _ {D : Type 0} where
  unfoldable pub apply : ScanMetrics D → Report → ScanMetrics D
  apply m (submission n) = record_submission m n
  apply m (completion n) = record_completion m n
  apply m (timeout n) = record_timeout m n
  apply m (failure n) = record_failure m n

  unfoldable pub apply_all : ScanMetrics D → List Report → ScanMetrics D
  apply_all m [] = m
  apply_all m (r ∷ rs) = apply_all (apply m r) rs

  peak-apply :
      (m : ScanMetrics D) (r : Report)
      → (apply m r).peak_active_probes ≡ std_max m.peak_active_probes (active r)
  unfolding apply record_submission record_completion record_timeout record_failure
  peak-apply m (submission n) = ground arith
  peak-apply m (completion n) = ground arith
  peak-apply m (timeout n) = ground arith
  peak-apply m (failure n) = ground arith

  submitted-apply :
      (m : ScanMetrics D) (r : Report)
      → m.total_submitted ≤ word_max
      → (apply m r).total_submitted ≡ min word_max (m.total_submitted + count_submissions (r ∷ []))
  unfolding apply record_submission record_completion record_timeout record_failure
  submitted-apply m (submission n) h = ground arith
  submitted-apply m (completion n) h = omega arith
  submitted-apply m (timeout n) h = omega arith
  submitted-apply m (failure n) h = omega arith

  -- The number of submitted probes grows by one with each submission reported and with no other
  -- report, and stops at the largest word in place of wrapping.
  pub submissions_saturate :
      (m : ScanMetrics D) (rs : List Report)
      → m.total_submitted ≤ word_max
      → (apply_all m rs).total_submitted ≡ min word_max (m.total_submitted + count_submissions rs)
  unfolding apply_all
  submissions_saturate m [] h = omega arith
  submissions_saturate m (r ∷ rs) h =
      let e = submitted-apply m r h in
      let ih = submissions_saturate (apply m r) rs (omega arith) in
      let c = count_submissions-cons r rs in omega arith

  -- After any reports, the peak of the active probes is the largest number among the peak before
  -- and the numbers reported.
  pub peak-highest :
      (m : ScanMetrics D) (rs : List Report)
      → (apply_all m rs).peak_active_probes ≡ highest m.peak_active_probes rs
  unfolding apply_all
  peak-highest m [] = refl
  peak-highest m (r ∷ rs) = rw (peak-highest (apply m r) rs, peak-apply m r)
