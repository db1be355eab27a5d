-- ===== src/Packet/Wire.antt =====
-- include/packet/packet_element.hpp and src/packet/packet_element.cpp: big endian words in a span.
-- A read outside the span, which is undefined in the source, is `none`.
pub mod Splice
use skan.Base.{
  ℕ, zero, suc, ◌+◌, ◌*◌, ◌/◌, ◌%◌, ◌^◌, ◌<◌, ◌≡◌, refl, ap, Option, none, some, List, [], ◌∷◌,
  length, get_elem?, set, replicate, arith, get_elem?-some,
}

infixl 5 ◌>>=◌
abbrev pub ◌>>=◌ {ℓ κ} : {A : Type ℓ} {B : Type κ} → Option A → (A → Option B) → Option B
none >>= f = none
some a >>= f = f a

abbrev pub AllBytes : List ℕ → Type 0
AllBytes [] = Unit
AllBytes (b ∷ bs) = (b < 256) × AllBytes bs

-- `wire::write_u16`
abbrev pub write_u16 : List ℕ → ℕ → ℕ → List ℕ
write_u16 output offset value =
    set (set output offset (value / 256 % 256)) (offset + 1) (value % 256)

-- `wire::write_u32`
abbrev pub write_u32 : List ℕ → ℕ → ℕ → List ℕ
write_u32 output offset value =
    set
      (set (set (set output offset (value / 2 ^ 24 % 256)) (offset + 1) (value / 2 ^ 16 % 256))
        (offset + 2) (value / 2 ^ 8 % 256))
      (offset + 3) (value % 256)

-- `wire::read_u16`; the two bytes have no bit in common once the first is shifted.
abbrev pub read_u16 : List ℕ → ℕ → Option ℕ
read_u16 input offset = do
  high ← get_elem? input offset
  low ← get_elem? input (offset + 1)
  some (high * 256 + low)

-- `wire::read_u32`
abbrev pub read_u32 : List ℕ → ℕ → Option ℕ
read_u32 input offset = do
  b0 ← get_elem? input offset
  b1 ← get_elem? input (offset + 1)
  b2 ← get_elem? input (offset + 2)
  b3 ← get_elem? input (offset + 3)
  some (b0 * 2 ^ 24 + b1 * 2 ^ 16 + b2 * 2 ^ 8 + b3)

-- `std::copy` to the start of a span that is long enough.
abbrev pub overwrite : List ℕ → List ℕ → List ℕ
overwrite output [] = output
overwrite [] (b ∷ bs) = []
overwrite (x ∷ xs) (b ∷ bs) = b ∷ overwrite xs bs

-- `std::copy` to an offset in a span.
abbrev pub copy_to : List ℕ → ℕ → List ℕ → List ℕ
copy_to output zero bytes = overwrite output bytes
copy_to [] (suc offset) bytes = []
copy_to (x ∷ xs) (suc offset) bytes = x ∷ copy_to xs offset bytes

pub overwrite-replicate : (bytes : List ℕ) → overwrite (replicate (length bytes) 0) bytes ≡ bytes
overwrite-replicate [] = refl
overwrite-replicate (b ∷ bytes) = ap (◌∷◌ b) (overwrite-replicate bytes)

-- A word that lies inside the span can be read.
pub read_u16-some :
    (input : List ℕ) (offset : ℕ)
    → offset + 1 < length input
    → (value : ℕ) × (read_u16 input offset ≡ some value)
read_u16-some input offset h =
    let (high, e) = get_elem?-some input offset (omega arith) in
    let (low, e') = get_elem?-some input (offset + 1) h in (high * 256 + low, rw (e, e'))

pub read_u32-some :
    (input : List ℕ) (offset : ℕ)
    → offset + 3 < length input
    → (value : ℕ) × (read_u32 input offset ≡ some value)
read_u32-some input offset h =
    let (b0, e0) = get_elem?-some input offset (omega arith) in
    let (b1, e1) = get_elem?-some input (offset + 1) (omega arith) in
    let (b2, e2) = get_elem?-some input (offset + 2) (omega arith) in
    let (b3, e3) = get_elem?-some input (offset + 3) h in
    (b0 * 2 ^ 24 + b1 * 2 ^ 16 + b2 * 2 ^ 8 + b3, rw (e0, e1, e2, e3))
