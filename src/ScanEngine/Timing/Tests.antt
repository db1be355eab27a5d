-- ===== src/ScanEngine/Timing/Tests.antt =====
-- The profiles on thousandths.
use skan.Base.{◌≡◌, refl, [], ◌∷◌, some}
use skan.Core.{ok}
use skan.Floats.Sample.{thousandths, fractions}
use skan.ScanEngine.Timing.{t2, t4, for_id, validate, parse, timing_profile_name}
use skan.ScanEngine.Timing.Profiles.{Exact, for_id_valid, parse_iff}

parse_T4 : parse thousandths (b'T' ∷ b'4' ∷ []) ≡ (ok, some (for_id thousandths t4))
unfolding parse for_id
parse_T4 = refl

parse_iff_example : parse thousandths (b'T' ∷ b'4' ∷ []) ≡ (ok, some (for_id thousandths t4))
unfolding timing_profile_name
parse_iff_example =
    (parse_iff thousandths (b'T' ∷ b'4' ∷ []) (for_id thousandths t4)).1 (t4, refl, refl)

fractions-Exact : Exact fractions
fractions-Exact = record {
  literal_lt = λ p q r s. refl;
  literal_le = λ p q r s. refl;
  literal_finite = λ p q. refl;
}

every_profile_valid :
    (validate fractions (for_id fractions t2) ≡ ok) × ((for_id fractions t2).id ≡ t2)
every_profile_valid = for_id_valid fractions fractions-Exact t2
