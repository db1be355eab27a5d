-- ===== src/ScanEngine/Congestion/Bounds.antt =====
-- The parallelism stays within its configured bounds through every history of events.
use skan.Base.{◌≤◌, ◌<◌, ◌≡◌, refl, ap, ◌∙◌, true, List, [], ◌∷◌, arith}
use skan.Floats.{Floats}
use skan.ScanEngine.Congestion.{
  CongestionConfig, CongestionController, create, is_valid, on_response, on_timeout,
}

-- What the scheduler reports to the controller.
pub data Event : Type 0 where
  response timeout : Event

-- The controller's parallelism lies in the configured range, and its copies of the limits agree
-- with the configuration.
pub record InRange {D : Type 0} (c : CongestionController D) : Type 0 where
  pub at_least : c.config.min_parallelism ≤ c.state.current_parallelism
  pub at_most : c.state.current_parallelism ≤ c.config.max_parallelism
  pub same_min : c.state.min_parallelism ≡ c.config.min_parallelism
  pub same_max : c.state.max_parallelism ≡ c.config.max_parallelism

module _ {D : Type 0} (F : Floats D) where
  abbrev pub react : CongestionController D → Event → CongestionController D
  react c response = on_response F c
  react c timeout = on_timeout F c

  unfoldable pub run : CongestionController D → List Event → CongestionController D
  run c [] = c
  run c (e ∷ es) = run (react c e) es

  -- The conditions on the parallelism that `valid` checks.
  pub is_valid-ordered :
      (c : CongestionController D)
      → is_valid F c ≡ true
      → (0 < c.config.min_parallelism) × (c.config.min_parallelism ≤ c.config.max_parallelism)
  unfolding is_valid
  is_valid-ordered c v = (ground arith, ground arith)

  config-react : (c : CongestionController D) (e : Event) → (react c e).config ≡ c.config
  unfolding on_response on_timeout
  config-react c response = refl
  config-react c timeout = refl

  react-InRange :
      (c : CongestionController D) (e : Event)
      → c.config.min_parallelism ≤ c.config.max_parallelism
      → c.state.min_parallelism ≡ c.config.min_parallelism
      → c.state.max_parallelism ≡ c.config.max_parallelism
      → InRange (react c e)
  unfolding on_response on_timeout
  react-InRange c response h p q = ground arith
  react-InRange c timeout h p q = ground arith

  create-InRange :
      (g : CongestionConfig D) → g.min_parallelism ≤ g.max_parallelism → InRange (create F g)
  unfolding create
  create-InRange g h = ground arith

  run-InRange :
      (c : CongestionController D) (es : List Event)
      → c.config.min_parallelism ≤ c.config.max_parallelism
      → InRange c
      → InRange (run c es)
  unfolding run
  run-InRange c [] h v = v
  run-InRange c (e ∷ es) h v =
      run-InRange (react c e) es (ground (arith, config-react c e))
        (react-InRange c e h v.same_min v.same_max)

  pub config-create : (g : CongestionConfig D) → (create F g).config ≡ g
  unfolding create
  config-create g = refl

  config-run : (c : CongestionController D) (es : List Event) → (run c es).config ≡ c.config
  unfolding run
  config-run c [] = refl
  config-run c (e ∷ es) = config-run (react c e) es ∙ config-react c e

  -- A controller built from a configuration that `valid` accepts keeps its parallelism between the
  -- configured minimum and maximum after every sequence of responses and timeouts, whatever the
  -- floating point operations return.
  pub parallelism_in_range :
      (g : CongestionConfig D) (es : List Event)
      → is_valid F (create F g) ≡ true
      → let c = run (create F g) es in
        (g.min_parallelism ≤ c.state.current_parallelism)
        × (c.state.current_parallelism ≤ g.max_parallelism)
  parallelism_in_range g es v =
      let ordered = is_valid-ordered (create F g) v in
      let after =
        run-InRange (create F g) es ordered.1
          (create-InRange g (rw (← config-create g) ordered.1)) in
      omega (
        arith,
        after,
        ap (λ h. h.min_parallelism) (config-run (create F g) es ∙ config-create g),
        ap (λ h. h.max_parallelism) (config-run (create F g) es ∙ config-create g),
      )
