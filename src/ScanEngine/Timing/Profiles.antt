-- ===== src/ScanEngine/Timing/Profiles.antt =====
-- The built-in profiles are valid, and their names are exactly the texts that parse.
use skan.Base.{
  ℕ, suc, ◌+◌, ◌-◌, ◌*◌, ◌≡◌, ◌↔◌, refl, ap, ◌∙◌, true, false, some, List, [], ◌∷◌, arith, ltb, leb,
  ltb→le,
}
use skan.Core.{ok}
use native.Mathlib.Decide.{ℕ_discrete}
use skan.Floats.{Floats}
use skan.ScanEngine.Timing.{
  TimingProfileId, t0, t1, t2, t3, t4, t5, index_of, TimingProfile, for_index, for_id, validate,
  parse, timing_profile_name,
}

-- The constants are binary fractions, which a double holds exactly: they are finite, and their
-- order is that of the fractions.
pub record Exact {D : Type 0} (F : Floats D) : Type 0 where
  pub literal_lt :
      (p q r s : ℕ) → F.lt (F.literal p (suc q)) (F.literal r (suc s)) ≡ ltb (p * suc s) (r * suc q)
  pub literal_le :
      (p q r s : ℕ) → F.le (F.literal p (suc q)) (F.literal r (suc s)) ≡ leb (p * suc s) (r * suc q)
  pub literal_finite : (p q : ℕ) → F.is_finite (F.literal p (suc q)) ≡ true

-- What `validate` asks of the constants that all rows share.
record Shared {D : Type 0} (F : Floats D) : Type 0 where
  half_pos : F.le (F.literal 1 2) (F.literal 0 1) ≡ false
  half_lt_one : F.le (F.literal 1 1) (F.literal 1 2) ≡ false
  half_finite : F.is_finite (F.literal 1 2) ≡ true
  eighth_pos : F.le (F.literal 1 8) (F.literal 0 1) ≡ false
  eighth_le_one : F.lt (F.literal 1 1) (F.literal 1 8) ≡ false
  eighth_finite : F.is_finite (F.literal 1 8) ≡ true

module _ {D : Type 0} (F : Floats D) (E : Exact F) where
  shared : Shared F
  shared = record {
    half_pos = E.literal_le 1 1 0 0;
    half_lt_one = E.literal_le 1 0 1 1;
    half_finite = E.literal_finite 1 1;
    eighth_pos = E.literal_le 1 7 0 0;
    eighth_le_one = E.literal_lt 1 0 1 7;
    eighth_finite = E.literal_finite 1 7;
  }

  -- Each built-in profile passes the validation and carries the identifier that it is stored under,
  -- where the floating point constants are exact.
  pub for_id_valid :
      (id : TimingProfileId) → (validate F (for_id F id) ≡ ok) × ((for_id F id).id ≡ id)
  unfolding validate for_id
  for_id_valid t0 = let c = shared in ground (arith, E.literal_le 5 0 0 0, E.literal_finite 5 0)
  for_id_valid t1 = let c = shared in ground (arith, E.literal_le 5 0 0 0, E.literal_finite 5 0)
  for_id_valid t2 = let c = shared in ground (arith, E.literal_le 9 1 0 0, E.literal_finite 9 1)
  for_id_valid t3 = let c = shared in ground (arith, E.literal_le 4 0 0 0, E.literal_finite 4 0)
  for_id_valid t4 = let c = shared in ground (arith, E.literal_le 3 0 0 0, E.literal_finite 3 0)
  for_id_valid t5 = let c = shared in ground (arith, E.literal_le 5 1 0 0, E.literal_finite 5 1)

module _ {D : Type 0} (F : Floats D) where
  -- The name of an identifier parses to its profile.
  parse-timing_profile_name :
      (id : TimingProfileId) → parse F (timing_profile_name id) ≡ (ok, some (for_id F id))
  unfolding parse timing_profile_name for_id
  parse-timing_profile_name t0 = refl
  parse-timing_profile_name _ = refl

  -- A digit that `parse` accepts is that of an identifier.
  digit_of :
      (digit : ℕ)
      → ltb digit b'0' ≡ false
      → ltb b'5' digit ≡ false
      → (id : TimingProfileId) × (digit ≡ b'0' + index_of id)
  digit_of digit low high = elim (ℕ_discrete digit b'0') [
    | yes e ↦ (t0, e)
    | no a ↦ elim (ℕ_discrete digit b'1') [
      | yes e ↦ (t1, e)
      | no b ↦ elim (ℕ_discrete digit b'2') [
        | yes e ↦ (t2, e)
        | no c ↦ elim (ℕ_discrete digit b'3') [
          | yes e ↦ (t3, e)
          | no d ↦ elim (ℕ_discrete digit b'4') [
            | yes e ↦ (t4, e)
            | no g ↦ (t5, omega (arith, ltb→le digit b'0' low, ltb→le b'5' digit high))
          ]
        ]
      ]
    ]
  ]

  name_of : (id : TimingProfileId) → b'T' ∷ (b'0' + index_of id) ∷ [] ≡ timing_profile_name id
  unfolding timing_profile_name
  name_of t0 = refl
  name_of _ = refl

  accepted :
      (a b : ℕ) (p : TimingProfile D)
      → parse F (a ∷ b ∷ []) ≡ (ok, some p)
      → (a ≡ b'T') × (ltb b b'0' ≡ false) × (ltb b'5' b ≡ false) × (p ≡ for_index F (b - b'0'))
  unfolding parse
  accepted a b p h = (ground arith, ground arith, ground arith, ground arith)

  parsed :
      (text : List ℕ) (p : TimingProfile D)
      → parse F text ≡ (ok, some p)
      → (id : TimingProfileId) × (text ≡ timing_profile_name id) × (p ≡ for_id F id)
  unfolding parse for_id
  parsed [] p h = absurd (ground arith)
  parsed (a ∷ []) p h = absurd (ground arith)
  parsed (a ∷ b ∷ []) p h =
      let (head, low, high, q) = accepted a b p h in
      let (id, e) = digit_of b low high in
      (id, rw (head, e) (name_of id), q ∙ ap (for_index F) (omega arith))
  parsed (a ∷ b ∷ c ∷ rest) p h = absurd (ground arith)

  -- A text parses exactly when it is the name of a built-in profile, and then to that profile.
  pub parse_iff :
      (text : List ℕ) (p : TimingProfile D)
      → (parse F text ≡ (ok, some p))
        ↔ ((id : TimingProfileId) × (text ≡ timing_profile_name id) × (p ≡ for_id F id))
  parse_iff text p = (parsed text p, λ (id, e, q). rw (e, q) (parse-timing_profile_name id))
