-- ===== src/ScanEngine/Scheduler/Strays.antt =====
-- `AdaptiveScheduler::receive` of src/scanengine/adaptive_scheduler.cpp on completions for probes that
-- are not pending any more, or never were.
use skan.Base.{
  ℕ, ◌+◌, ◌%◌, ◌^◌, ◌<◌, ◌≡◌, refl, ap, ◌∙◌, Bool, true, false, ◌&&◌, not, none, List, [], ◌∷◌,
  arith, if◌then◌else◌, ℤ, Bool-cases, inl, inr,
}
use skan.Base.Assoc.{Assoc, find}
use skan.ScanEngine.Rtt.{Precision}
use skan.ScanEngine.Scheduler.{
  Scheduler, Pending, Answer, ScanCompletion, contains, receive, count_duplicate, count_late,
}

-- None of the completions is for a pending probe.
abbrev pub AllStray : Assoc Pending → List ScanCompletion → Type 0
AllStray pending [] = Unit
AllStray pending (c ∷ cs) = (find c.id pending ≡ none) × AllStray pending cs

-- How many of the completions have an identifier that passes the test.
abbrev pub tally : (ℕ → Bool) → List ScanCompletion → ℕ
tally test [] = 0
tally test (c ∷ cs) = (if test c.id then 1 else 0) + tally test cs

abbrev pub was_completed : {D L : Type 0} → Scheduler D L → ℕ → Bool
was_completed s id = contains id s.completed_ids

-- It was given up, and not completed.
abbrev pub has_expired : {D L : Type 0} → Scheduler D L → ℕ → Bool
has_expired s id = not (contains id s.completed_ids) && contains id s.expired_ids

-- The scheduler with other counts of duplicate and of late responses.
abbrev pub with_counts : {D L : Type 0} → Scheduler D L → ℕ → ℕ → Scheduler D L
with_counts s duplicates late = record s {
  group = record s.group {
    metrics = record s.group.metrics { duplicate_responses = duplicates; late_responses = late };
  };
}

both_counts :
    {D L : Type 0} (s : Scheduler D L) {d d' l l' : ℕ}
    → d ≡ d'
    → l ≡ l'
    → with_counts s d l ≡ with_counts s d' l'
both_counts s {d} {d'} {l} {l'} e f = ap (λ n. with_counts s n l) e ∙ ap (λ n. with_counts s d' n) f

counted :
    (b : Bool) (d n : ℕ)
    → ((if b then (d + 1) % 2 ^ 64 else d) + n) % 2 ^ 64 ≡ (d + ((if b then 1 else 0) + n)) % 2 ^ 64
counted true d n = omega arith
counted false d n = omega arith

module _ {D L : Type 0} (P : Precision D L) (pushed : Bool) (answers : ℕ → Answer) (now : ℤ) where
  -- The completions, received one after the other.
  abbrev pub receive_all : Scheduler D L → List ScanCompletion → Scheduler D L
  receive_all s [] = s
  receive_all s (c ∷ cs) = receive_all (receive P pushed answers now s c) cs

  receive_stray :
      (s : Scheduler D L) (c : ScanCompletion) (d l : ℕ)
      → s.stopped ≡ false
      → find c.id s.pending ≡ none
      → receive P pushed answers now (with_counts s d l) c
        ≡ with_counts s
            (if was_completed s c.id then (d + 1) % 2 ^ 64 else d)
            (if has_expired s c.id then (l + 1) % 2 ^ 64 else l)
  unfolding receive count_duplicate count_late
  receive_stray s c d l h e =
      rw (h, e)
        (elim (Bool-cases (contains c.id s.completed_ids)) [
          | inl f ↦ rw f refl
          | inr f ↦ elim (Bool-cases (contains c.id s.expired_ids)) [
            | inl g ↦ rw (f, g) refl
            | inr g ↦ rw (f, g) refl
          ]
        ])

  strays_from :
      (s : Scheduler D L) (cs : List ScanCompletion) (d l : ℕ)
      → s.stopped ≡ false
      → AllStray s.pending cs
      → d < 2 ^ 64
      → l < 2 ^ 64
      → receive_all (with_counts s d l) cs
        ≡ with_counts s
            ((d + tally (λ id. was_completed s id) cs) % 2 ^ 64)
            ((l + tally (λ id. has_expired s id) cs) % 2 ^ 64)
  strays_from s [] d l h a p q =
      let e : d ≡ (d + 0) % 2 ^ 64 = omega arith in
      let f : l ≡ (l + 0) % 2 ^ 64 = omega arith in both_counts s e f
  strays_from s (c ∷ cs) d l h (e, a) p q =
      ap (λ t. receive_all t cs) (receive_stray s c d l h e)
      ∙ strays_from s cs _ _ h a (ground arith) (ground arith)
      ∙ both_counts s (counted (was_completed s c.id) d (tally (λ id. was_completed s id) cs))
          (counted (has_expired s c.id) l (tally (λ id. has_expired s id) cs))

  -- A running scheduler that receives any completions for probes that are not pending counts, round
  -- 64 bits, as duplicate responses those of probes that it has completed, and as late responses those
  -- of probes that it has given up and not completed; nothing else of it changes.
  pub strays_counted :
      (s : Scheduler D L) (cs : List ScanCompletion)
      → s.stopped ≡ false
      → AllStray s.pending cs
      → s.group.metrics.duplicate_responses < 2 ^ 64
      → s.group.metrics.late_responses < 2 ^ 64
      → receive_all s cs
        ≡ with_counts s
            ((s.group.metrics.duplicate_responses + tally (λ id. was_completed s id) cs) % 2 ^ 64)
            ((s.group.metrics.late_responses + tally (λ id. has_expired s id) cs) % 2 ^ 64)
  strays_counted s cs h a p q =
      strays_from s cs s.group.metrics.duplicate_responses s.group.metrics.late_responses h a p q
