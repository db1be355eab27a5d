-- ===== src/ScanEngine/Controller/Limits.antt =====
-- What a stage of a scan relies on: `parallelism_limit` and `timeout` of src/scanengine/scan_engine.cpp
-- through every history of submissions, responses and timeouts.
use skan.Base.{
  sym, ℕ, ◌≤◌, ◌<◌, ◌≡◌, refl, ap, ◌∙◌, true, List, [], ◌∷◌, arith, ℤ, ◌==◌, if◌then◌else◌,
}
use skan.Core.{ok}
use skan.ScanEngine.Rtt.{Precision}
use skan.ScanEngine.Congestion
use skan.ScanEngine.Congestion.{CongestionConfig}
use skan.ScanEngine.Congestion.Bounds
use skan.ScanEngine.Congestion.Bounds.{InRange}
use skan.ScanEngine.Timing.{TimingProfile}
use skan.ScanEngine.Controller.{
  TimingController, create, validate, on_response, on_timeout, on_submitted, parallelism_limit,
}

-- The calls that change a controller.
pub data Call : Type 0 where
  submitted : ℕ → Call
  responded : ℤ → Call
  timed_out : Call

module _ {D L : Type 0} (P : Precision D L) where
  open P use {double as F}

  abbrev pub step : TimingController D L → Call → TimingController D L
  step t (submitted outstanding) = on_submitted t outstanding
  step t (responded rtt) = on_response P t rtt
  step t timed_out = on_timeout P t

  unfoldable pub run : TimingController D L → List Call → TimingController D L
  run t [] = t
  run t (c ∷ cs) = run (step t c) cs

  -- What the controller tells the congestion controller.
  abbrev events : List Call → List Bounds.Event
  events [] = []
  events (submitted outstanding ∷ cs) = events cs
  events (responded rtt ∷ cs) = Bounds.response ∷ events cs
  events (timed_out ∷ cs) = Bounds.timeout ∷ events cs

  -- The congestion controller inside sees the events and nothing else.
  congestion-run :
      (t : TimingController D L) (cs : List Call)
      → (run t cs).congestion ≡ Bounds.run F t.congestion (events cs)
  unfolding run Bounds.run on_submitted on_response on_timeout
  congestion-run t [] = refl
  congestion-run t (submitted outstanding ∷ cs) = congestion-run (on_submitted t outstanding) cs
  congestion-run t (responded rtt ∷ cs) = congestion-run (on_response P t rtt) cs
  congestion-run t (timed_out ∷ cs) = congestion-run (on_timeout P t) cs

  valid_congestion :
      (p : TimingProfile D)
      → validate P (create P p) ≡ ok
      → Congestion.is_valid F (create P p).congestion ≡ true
  unfolding validate
  valid_congestion p v = ground arith

  abbrev config : TimingProfile D → CongestionConfig D
  config p = record {
    min_parallelism = p.min_parallelism;
    max_parallelism = p.max_parallelism;
    initial_parallelism = p.initial_parallelism;
    timeout_threshold = p.timeout_threshold;
    recovery_threshold = p.recovery_threshold;
    backoff_factor = p.backoff_factor;
    drop_rate_alpha = p.drop_rate_alpha;
  }

  congestion-create :
      (p : TimingProfile D) → (create P p).congestion ≡ Congestion.create F (config p)
  unfolding create
  congestion-create p = refl

  -- A controller made from a profile that it accepts always admits at least one probe, and never
  -- more than the profile's maximum or than the limit that the stage configures, if it sets one,
  -- after every sequence of submissions, responses and timeouts.
  pub limit_in_range :
      (p : TimingProfile D) (cs : List Call) (configured : ℕ)
      → validate P (create P p) ≡ ok
      → let limit = parallelism_limit (run (create P p) cs) configured in
        (0 < limit)
        × (limit ≤ p.max_parallelism)
        × (limit ≤ (if configured == 0 then p.max_parallelism else configured))
  unfolding parallelism_limit
  limit_in_range p cs configured v =
      let valid = ap (Congestion.is_valid F) (sym (congestion-create p)) ∙ valid_congestion p v in
      let ordered = Bounds.is_valid-ordered F (Congestion.create F (config p)) valid in
      let positive : 0 < p.min_parallelism =
        rw
          (← ap (λ (g : CongestionConfig D). g.min_parallelism) (Bounds.config-create F (config p)))
          ordered.0 in
      let bounds = Bounds.parallelism_in_range F (config p) (events cs) valid in
      let e =
        congestion-run (create P p) cs
        ∙ ap (λ c. Bounds.run F c (events cs)) (congestion-create p) in
      rw e (ground arith)
