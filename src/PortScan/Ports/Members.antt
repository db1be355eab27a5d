-- ===== src/PortScan/Ports/Members.antt =====
-- The sorting and the removal of repetitions in `parse_ports` of src/portscan/port_types.cpp.
use skan.Base.{
  ◌≡◌, refl, sym, ◌∙◌, ap, Bool, true, false, ◌||◌, List, [], ◌∷◌, inl, inr, Bool-cases, arith,
}
use skan.PortScan.Types.{Port}
use skan.PortScan.Ports.{before, same_port, insert, sort, skip, unique}

abbrev pub holds : Port → List Port → Bool
holds n [] = false
holds n (p ∷ ps) = same_port n p || holds n ps

or_swap : (a b c : Bool) → (a || (b || c)) ≡ (b || (a || c))
or_swap a b c = ground arith

holds-insert : (n p : Port) (ps : List Port) → holds n (insert p ps) ≡ holds n (p ∷ ps)
unfolding insert
holds-insert n p [] = refl
holds-insert n p (q ∷ qs) = elim (Bool-cases (before q p)) [
  | inl e ↦ rw e (
      ap (◌||◌ (same_port n q)) (holds-insert n p qs)
      ∙ or_swap (same_port n q) (same_port n p) (holds n qs))
  | inr e ↦ rw e refl
]

holds-sort : (n : Port) (ps : List Port) → holds n (sort ps) ≡ holds n ps
unfolding sort
holds-sort n [] = refl
holds-sort n (p ∷ ps) = holds-insert n p (sort ps) ∙ ap (◌||◌ (same_port n p)) (holds-sort n ps)

same_same : (n p q : Port) → same_port p q ≡ true → same_port n p ≡ same_port n q
same_same n p q e = ground arith

or_twice : (a b : Bool) → (a || (a || b)) ≡ (a || b)
or_twice a b = ground arith

holds-skip : (n p : Port) (ps : List Port) → holds n (p ∷ skip p ps) ≡ holds n (p ∷ ps)
unfolding skip
holds-skip n p [] = refl
holds-skip n p (q ∷ qs) = elim (Bool-cases (same_port p q)) [
  | inl e ↦ rw e (
      ap (λ b. b || holds n (skip q qs)) (same_same n p q e)
      ∙ holds-skip n q qs
      ∙ sym (or_twice (same_port n q) (holds n qs))
      ∙ ap (λ b. b || (same_port n q || holds n qs)) (sym (same_same n p q e)))
  | inr e ↦ rw e (ap (◌||◌ (same_port n p)) (holds-skip n q qs))
]

-- Sorting ports and removing the repetitions, as `parse_ports` does at its end, loses no port and
-- adds none.
pub holds-unique-sort : (n : Port) (ps : List Port) → holds n (unique (sort ps)) ≡ holds n ps
unfolding unique
holds-unique-sort n ps = unique_holds (sort ps) ∙ holds-sort n ps
  where
    unique_holds : (qs : List Port) → holds n (unique qs) ≡ holds n qs
    unique_holds [] = refl
    unique_holds (q ∷ qs) = holds-skip n q qs
