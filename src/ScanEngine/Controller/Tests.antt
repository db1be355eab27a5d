-- ===== src/ScanEngine/Controller/Tests.antt =====
-- A stage with the default profile.
use skan.Base.{ℕ, ◌≡◌, ◌≤◌, ◌<◌, refl, List, [], ◌∷◌, pos, if◌then◌else◌, ◌==◌}
use skan.Core.{ok}
use skan.Floats.Sample.{thousandths}
use skan.ScanEngine.Group.Fixture.{precision}
use skan.ScanEngine.Timing
use skan.ScanEngine.Timing.{TimingProfile, for_id, t3}
use skan.ScanEngine.Congestion
use skan.ScanEngine.Controller.{create, validate, parallelism_limit}
use skan.ScanEngine.Controller.Limits.{Call, submitted, responded, timed_out, run, limit_in_range}

abbrev default_profile : TimingProfile ℕ
default_profile = for_id thousandths t3

abbrev history : List Call
history = submitted 1 ∷ timed_out ∷ submitted 1 ∷ responded (pos 20) ∷ []

default_is_valid : validate precision (create precision default_profile) ≡ ok
unfolding validate create Timing.validate Timing.for_id Congestion.create Congestion.is_valid
default_is_valid = refl

limit_in_range_example :
    let limit = parallelism_limit (run precision (create precision default_profile) history) 8 in
    (0 < limit)
    × (limit ≤ default_profile.max_parallelism)
    × (limit ≤ (if 8 == 0 then default_profile.max_parallelism else 8))
limit_in_range_example = limit_in_range precision default_profile history 8 default_is_valid
