-- ===== src/Packet/Wire/Splice.antt =====
-- Reads and writes behind a front part of a span.
use skan.Base.{
  ℕ, zero, suc, ◌+◌, ◌/◌, ◌%◌, ◌^◌, ◌≡◌, refl, ap, ◌∙◌, List, [], ◌∷◌, ◌++◌, length, get_elem?, set,
  arith, take, drop, replicate,
}
use skan.Packet.Wire.{write_u16, write_u32, read_u16, read_u32, overwrite, copy_to}

module _ (k : ℕ) (rest : List ℕ) where
  set-append :
      (front : List ℕ) (i v : ℕ)
      → i ≡ length front + k
      → set (front ++ rest) i v ≡ front ++ set rest k v
  set-append [] i v e = let h : i ≡ k = omega arith in rw h
  set-append (x ∷ front) i v e =
      let h : i ≡ suc (length front + k) = omega arith in
      rw h (ap (◌∷◌ x) (set-append front (length front + k) v refl))

  get_elem?-append :
      (front : List ℕ) (i : ℕ)
      → i ≡ length front + k
      → get_elem? (front ++ rest) i ≡ get_elem? rest k
  get_elem?-append [] i e = let h : i ≡ k = omega arith in rw h
  get_elem?-append (x ∷ front) i e =
      let h : i ≡ suc (length front + k) = omega arith in
      rw h (get_elem?-append front (length front + k) refl)

pub set_behind :
    (k : ℕ) (front rest : List ℕ) (i v : ℕ)
    → i ≡ length front + k
    → set (front ++ rest) i v ≡ front ++ set rest k v
set_behind k front rest i v e = set-append k rest front i v e

pub get_behind :
    (k : ℕ) (front rest : List ℕ) (i : ℕ)
    → i ≡ length front + k
    → get_elem? (front ++ rest) i ≡ get_elem? rest k
get_behind k front rest i e = get_elem?-append k rest front i e

pub write_u16_behind :
    (k : ℕ) (front rest : List ℕ) (i v : ℕ)
    → i ≡ length front + k
    → write_u16 (front ++ rest) i v ≡ front ++ write_u16 rest k v
write_u16_behind k front rest i v e =
    ap (λ o. set o (i + 1) (v % 256)) (set_behind k front rest i (v / 256 % 256) e)
    ∙ set_behind (k + 1) front (set rest k (v / 256 % 256)) (i + 1) (v % 256) (omega arith)

pub write_u32_behind :
    (k : ℕ) (front rest : List ℕ) (i v : ℕ)
    → i ≡ length front + k
    → write_u32 (front ++ rest) i v ≡ front ++ write_u32 rest k v
write_u32_behind k front rest i v e =
    let a = set rest k (v / 2 ^ 24 % 256) in
    let b = set a (k + 1) (v / 2 ^ 16 % 256) in
    let c = set b (k + 2) (v / 2 ^ 8 % 256) in
    rw
      (
        set_behind k front rest i (v / 2 ^ 24 % 256) e,
        set_behind (k + 1) front a (i + 1) (v / 2 ^ 16 % 256) (omega arith),
        set_behind (k + 2) front b (i + 2) (v / 2 ^ 8 % 256) (omega arith),
        set_behind (k + 3) front c (i + 3) (v % 256) (omega arith),
      )
      refl

pub read_u16_behind :
    (k : ℕ) (front rest : List ℕ) (i : ℕ)
    → i ≡ length front + k
    → read_u16 (front ++ rest) i ≡ read_u16 rest k
read_u16_behind k front rest i e =
    rw (get_behind k front rest i e, get_behind (k + 1) front rest (i + 1) (omega arith)) refl

pub read_u32_behind :
    (k : ℕ) (front rest : List ℕ) (i : ℕ)
    → i ≡ length front + k
    → read_u32 (front ++ rest) i ≡ read_u32 rest k
read_u32_behind k front rest i e =
    rw
      (
        get_behind k front rest i e,
        get_behind (k + 1) front rest (i + 1) (omega arith),
        get_behind (k + 2) front rest (i + 2) (omega arith),
        get_behind (k + 3) front rest (i + 3) (omega arith),
      )
      refl

-- Zeros behind zeros.
pub replicate_add : (m n : ℕ) → replicate {A = ℕ} (m + n) 0 ≡ replicate m 0 ++ replicate n 0
replicate_add zero n = let h : zero + n ≡ n = omega arith in rw h
replicate_add (suc m) n =
    let h : suc m + n ≡ suc (m + n) = omega arith in rw h (ap (◌∷◌ 0) (replicate_add m n))

pub overwrite-append :
    (front rest : List ℕ) (new more : List ℕ)
    → length front ≡ length new
    → overwrite (front ++ rest) (new ++ more) ≡ new ++ overwrite rest more
overwrite-append [] rest [] more e = refl
overwrite-append [] rest (n ∷ new) more e = absurd (omega arith)
overwrite-append (x ∷ front) rest [] more e = absurd (omega arith)
overwrite-append (x ∷ front) rest (n ∷ new) more e =
    ap (◌∷◌ n) (overwrite-append front rest new more (omega arith))

pub copy_behind :
    (front rest bytes : List ℕ)
    → copy_to (front ++ rest) (length front) bytes ≡ front ++ overwrite rest bytes
copy_behind [] rest bytes = refl
copy_behind (x ∷ front) rest bytes = ap (◌∷◌ x) (copy_behind front rest bytes)

pub take_front : (front rest : List ℕ) → take (length front) (front ++ rest) ≡ front
take_front [] rest = refl
take_front (x ∷ front) rest = ap (◌∷◌ x) (take_front front rest)

pub drop_front : (front rest : List ℕ) → drop (length front) (front ++ rest) ≡ rest
drop_front [] rest = refl
drop_front (x ∷ front) rest = drop_front front rest
