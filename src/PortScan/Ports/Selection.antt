-- ===== src/PortScan/Ports/Selection.antt =====
-- The ports that `parse_ports` of src/portscan/port_types.cpp returns: their order and their range.
use skan.Base.{
  ℕ, zero, suc, ◌+◌, ◌-◌, ◌≤◌, ◌≡◌, refl, Bool, true, false, Option, none, some, List, [], ◌∷◌,
  ◌++◌, ltb, if◌then◌else◌, ◌⊎◌, inl, inr, Bool-cases, Option-cases, arith,
}
use mathlib.Core.Path.{subst}
use skan.Core.{StatusCode, ok, is_ok}
use skan.PortScan.Types.{Port, Protocol, tcp}
use skan.PortScan.Ports.{
  before, same_port, insert, sort, skip, unique, collect, token_ports, piece_ports, range, count_up,
  parse_port_number, in_range, parse_ports, trim, pieces, number, is_empty,
}

-- Each port comes before the next one.
abbrev Follows : Port → List Port → Type 0
Follows b [] = Unit
Follows b (p ∷ ps) = (before b p ≡ true) × Follows p ps

abbrev pub Ascending : List Port → Type 0
Ascending [] = Unit
Ascending (p ∷ ps) = Follows p ps

-- No port comes before the one in front of it.
abbrev Sorted : Port → List Port → Type 0
Sorted b [] = Unit
Sorted b (p ∷ ps) = (before p b ≡ false) × Sorted p ps

abbrev least : Port
least = record { number = 0; protocol = tcp }

asym : (p q : Port) → before q p ≡ true → before p q ≡ false
asym p q h = ground arith

insert-Sorted :
    (b p : Port) (ps : List Port) → before p b ≡ false → Sorted b ps → Sorted b (insert p ps)
unfolding insert
insert-Sorted b p [] h s = (h, tt)
insert-Sorted b p (q ∷ qs) h s = elim (Bool-cases (before q p)) [
  | inl e ↦ rw e (s.0, insert-Sorted q p qs (asym p q e) s.1)
  | inr e ↦ rw e (h, (e, s.1))
]

above_least : (p : Port) → before p least ≡ false
above_least p = ground arith

sort-Sorted : (ps : List Port) → Sorted least (sort ps)
unfolding sort
sort-Sorted [] = tt
sort-Sorted (p ∷ ps) = insert-Sorted least p (sort ps) (above_least p) (sort-Sorted ps)

before_same : (p q r : Port) → same_port p q ≡ true → before q r ≡ true → before p r ≡ true
before_same p q r e h = ground arith

Follows-same : (p q : Port) (ps : List Port) → same_port p q ≡ true → Follows q ps → Follows p ps
Follows-same p q [] e f = tt
Follows-same p q (r ∷ rs) e f = (before_same p q r e f.0, f.1)

apart : (p q : Port) → same_port p q ≡ false → before q p ≡ false → before p q ≡ true
apart p q e h = ground arith

skip-Follows : (p : Port) (ps : List Port) → Sorted p ps → Follows p (skip p ps)
unfolding skip
skip-Follows p [] s = tt
skip-Follows p (q ∷ qs) s = elim (Bool-cases (same_port p q)) [
  | inl e ↦ rw e (Follows-same p q (skip q qs) e (skip-Follows q qs s.1))
  | inr e ↦ rw e (apart p q e s.0, skip-Follows q qs s.1)
]

unique-Ascending : (ps : List Port) → Sorted least ps → Ascending (unique ps)
unfolding unique
unique-Ascending [] s = tt
unique-Ascending (p ∷ ps) s = skip-Follows p ps s.1

abbrev IsPort : Protocol → Port → Type 0
IsPort protocol p = (1 ≤ p.number) × (p.number ≤ 65535) × (p.protocol ≡ protocol)

abbrev pub AllPorts : Protocol → List Port → Type 0
AllPorts protocol [] = Unit
AllPorts protocol (p ∷ ps) = IsPort protocol p × AllPorts protocol ps

module _ (protocol : Protocol) where
  AllPorts-append :
      (ps qs : List Port)
      → AllPorts protocol ps
      → AllPorts protocol qs
      → AllPorts protocol (ps ++ qs)
  AllPorts-append [] qs f g = g
  AllPorts-append (p ∷ ps) qs f g = (f.0, AllPorts-append ps qs f.1 g)

  insert-AllPorts :
      (p : Port) (ps : List Port)
      → IsPort protocol p
      → AllPorts protocol ps
      → AllPorts protocol (insert p ps)
  unfolding insert
  insert-AllPorts p [] h f = (h, tt)
  insert-AllPorts p (q ∷ qs) h f = elim (Bool-cases (before q p)) [
    | inl e ↦ rw e (f.0, insert-AllPorts p qs h f.1)
    | inr e ↦ rw e (h, f)
  ]

  sort-AllPorts : (ps : List Port) → AllPorts protocol ps → AllPorts protocol (sort ps)
  unfolding sort
  sort-AllPorts [] f = tt
  sort-AllPorts (p ∷ ps) f = insert-AllPorts p (sort ps) f.0 (sort-AllPorts ps f.1)

  skip-AllPorts : (p : Port) (ps : List Port) → AllPorts protocol ps → AllPorts protocol (skip p ps)
  unfolding skip
  skip-AllPorts p [] f = tt
  skip-AllPorts p (q ∷ qs) f = elim (Bool-cases (same_port p q)) [
    | inl e ↦ rw e (skip-AllPorts q qs f.1)
    | inr e ↦ rw e (f.0, skip-AllPorts q qs f.1)
  ]

  unique-AllPorts : (ps : List Port) → AllPorts protocol ps → AllPorts protocol (unique ps)
  unfolding unique
  unique-AllPorts [] f = tt
  unique-AllPorts (p ∷ ps) f = (f.0, skip-AllPorts p ps f.1)

  count_up-AllPorts :
      (first n : ℕ) → 1 ≤ first → first + n ≤ 65536 → AllPorts protocol (count_up protocol first n)
  unfolding count_up
  count_up-AllPorts first zero h k = tt
  count_up-AllPorts first (suc n) h k =
      ((h, omega arith, refl), count_up-AllPorts (first + 1) n (omega arith) (omega arith))

  -- The ports of a token, if it has any.
  abbrev AllGiven : Option (List Port) → Type 0
  AllGiven none = Unit
  AllGiven (some ps) = AllPorts protocol ps

abbrev Bounded : Option ℕ → Type 0
Bounded none = Unit
Bounded (some n) = (1 ≤ n) × (n ≤ 65535)

in_range-Bounded : (n : ℕ) → Bounded (in_range n)
unfolding in_range
in_range-Bounded n = ground arith

port_number-Bounded : (value : List ℕ) → Bounded (parse_port_number value)
unfolding parse_port_number
port_number-Bounded value = elim (Bool-cases (is_empty (trim value))) [
  | inl e ↦ rw e tt
  | inr e ↦ elim (Option-cases (number 0 (trim value))) [
    | inl f ↦ rw (e, f) tt
    | inr (n, f) ↦ rw (e, f) (in_range-Bounded n)
  ]
]

module _ (protocol : Protocol) where
  range-AllGiven :
      (first last : ℕ) → 1 ≤ first → last ≤ 65535 → AllGiven protocol (range protocol first last)
  unfolding range
  range-AllGiven first last h k = elim (Bool-cases (ltb last first)) [
    | inl e ↦ rw e tt
    | inr e ↦ rw e (count_up-AllPorts protocol first (last + 1 - first) h (ground arith))
  ]

  read : (value : List ℕ) (n : ℕ) → parse_port_number value ≡ some n → (1 ≤ n) × (n ≤ 65535)
  read value n e = subst (λ o. Bounded o) e (port_number-Bounded value)

  piece_ports-AllGiven : (ps : List (List ℕ)) → AllGiven protocol (piece_ports protocol ps)
  unfolding piece_ports
  piece_ports-AllGiven [] = tt
  piece_ports-AllGiven (whole ∷ []) = elim (Option-cases (parse_port_number whole)) [
    | inl e ↦ rw e tt
    | inr (n, e) ↦ rw e (((read whole n e).0, (read whole n e).1, refl), tt)
  ]
  piece_ports-AllGiven (low ∷ high ∷ []) = elim (Option-cases (parse_port_number low)) [
    | inl e ↦ rw e tt
    | inr (n, e) ↦ elim (Option-cases (parse_port_number high)) [
      | inl f ↦ rw (e, f) tt
      | inr (m, f) ↦ rw (e, f) (range-AllGiven n m (read low n e).0 (read high m f).1)
    ]
  ]
  piece_ports-AllGiven (low ∷ high ∷ more ∷ rest) = tt

  token_ports-AllGiven : (token : List ℕ) → AllGiven protocol (token_ports protocol token)
  unfolding token_ports
  token_ports-AllGiven token = elim (Bool-cases (is_empty (trim token))) [
    | inl e ↦ rw e tt
    | inr e ↦ rw e (piece_ports-AllGiven (pieces b'-' (trim token)))
  ]

  given :
      (token : List ℕ) (more : List Port)
      → token_ports protocol token ≡ some more
      → AllPorts protocol more
  given token more e = subst (λ o. AllGiven protocol o) e (token_ports-AllGiven token)

  collect-AllPorts :
      (memory : ℕ → Bool) (i : ℕ) (tokens : List (List ℕ)) (ports : List Port)
      → AllPorts protocol ports
      → AllPorts protocol (collect memory protocol i tokens ports).1
  unfolding collect
  collect-AllPorts memory i [] ports f = f
  collect-AllPorts memory i (token ∷ rest) ports f =
      elim (Option-cases (token_ports protocol token)) [
        | inl e ↦ rw (collect, e) tt
        | inr (more, e) ↦ elim (Bool-cases (memory i)) [
          | inr g ↦ rw (collect, e, g) tt
          | inl g ↦
              rw (collect, e, g)
                (collect-AllPorts memory (i + 1) rest (ports ++ more)
                  (AllPorts-append protocol ports more f (given token more e)))
        ]
      ]

  selected :
      (outcome : StatusCode × List Port)
      → AllPorts protocol outcome.1
      → let ports = if is_ok outcome.0 then unique (sort outcome.1) else [] in
        Ascending ports × AllPorts protocol ports × ((outcome.0 ≡ ok) ⊎ (ports ≡ []))
  selected (ok, ports) f = (
    unique-Ascending (sort ports) (sort-Sorted ports),
    unique-AllPorts protocol (sort ports) (sort-AllPorts protocol ports f),
    inl refl,
  )
  selected (status, ports) f = (tt, tt, inr refl)

-- Whatever the text is and whatever memory there is, the ports that `parse_ports` returns are in
-- strictly ascending order, so that none is there twice, each is between 1 and 65535 with the
-- protocol asked for, and without the status `Ok` there are none.
pub parse_ports-Ascending :
    (memory : ℕ → Bool) (specification : List ℕ) (protocol : Protocol)
    → let (status, ports) = parse_ports memory specification protocol in
      Ascending ports × AllPorts protocol ports × ((status ≡ ok) ⊎ (ports ≡ []))
unfolding parse_ports
parse_ports-Ascending memory specification protocol =
    elim (Bool-cases (is_empty (trim specification))) [
      | inl e ↦ rw e (tt, tt, inr refl)
      | inr e ↦ rw e (
          selected protocol (collect memory protocol 0 (pieces b',' specification) [])
            (collect-AllPorts protocol memory 0 (pieces b',' specification) [] tt))
    ]
