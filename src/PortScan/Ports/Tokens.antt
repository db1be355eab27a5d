-- ===== src/PortScan/Ports/Tokens.antt =====
-- How `parse_ports` of src/portscan/port_types.cpp takes the texts of ports apart: the pieces between
-- the separators, the trimmed spaces and the numbers.
use mathlib.Core.List.{append-nil}
use skan.Base.{
  zero, suc, replicate, sym, ℕ, ◌+◌, ◌-◌, ◌*◌, ◌≤◌, ◌≡◌, refl, ◌∙◌, ap, true, false, ◌&&◌, ◌||◌,
  some, List, [], ◌∷◌, ◌++◌, ltb, leb, ◌==◌, arith,
}
use skan.PortScan.Types.{Port, Protocol}
use skan.PortScan.Ports.{
  is_empty, trim_front, trim_back, trim, number, in_range, parse_port_number, pieces, count_up,
  range, piece_ports, token_ports,
}
use skan.PortScan.Ports.Texts.{
  Item, single, span, digit_bytes, item_text, Padded, padded_text, text, value_from, value,
  AllDigits, IsNumeral, IsItem,
}

-- Each byte is that large.
abbrev AllFrom : ℕ → List ℕ → Type 0
AllFrom m [] = Unit
AllFrom m (b ∷ bs) = (m ≤ b) × AllFrom m bs

AllFrom-le : (m n : ℕ) (bs : List ℕ) → m ≤ n → AllFrom n bs → AllFrom m bs
AllFrom-le m n [] h a = tt
AllFrom-le m n (b ∷ bs) h a = (omega arith, AllFrom-le m n bs h a.1)

AllFrom-append : (m : ℕ) (bs cs : List ℕ) → AllFrom m bs → AllFrom m cs → AllFrom m (bs ++ cs)
AllFrom-append m [] cs a b = b
AllFrom-append m (x ∷ bs) cs a b = (a.0, AllFrom-append m bs cs a.1 b)

digit_bytes-AllFrom : (ds : List ℕ) → AllFrom 46 (digit_bytes ds)
digit_bytes-AllFrom [] = tt
digit_bytes-AllFrom (d ∷ ds) = (omega arith, digit_bytes-AllFrom ds)

no_comma : (ds : List ℕ) → AllFrom 45 (digit_bytes ds)
no_comma ds = AllFrom-le 45 46 (digit_bytes ds) (omega arith) (digit_bytes-AllFrom ds)

item_text-AllFrom : (item : Item) → AllFrom 45 (item_text item)
item_text-AllFrom (single ds) = no_comma ds
item_text-AllFrom (span low high) =
    AllFrom-append 45 (digit_bytes low) (45 ∷ digit_bytes high) (no_comma low)
      (omega arith, no_comma high)

-- No byte is the separator.
abbrev Avoids : ℕ → List ℕ → Type 0
Avoids separator [] = Unit
Avoids separator (b ∷ bs) = ((b == separator) ≡ false) × Avoids separator bs

AllFrom-Avoids : (separator : ℕ) (bs : List ℕ) → AllFrom (separator + 1) bs → Avoids separator bs
AllFrom-Avoids separator [] a = tt
AllFrom-Avoids separator (b ∷ bs) a = (ground arith, AllFrom-Avoids separator bs a.1)

Avoids-append :
    (separator : ℕ) (bs cs : List ℕ)
    → Avoids separator bs
    → Avoids separator cs
    → Avoids separator (bs ++ cs)
Avoids-append separator [] cs a b = b
Avoids-append separator (x ∷ bs) cs a b = (a.0, Avoids-append separator bs cs a.1 b)

spaces-Avoids : (n : ℕ) → Avoids 44 (replicate n 32)
spaces-Avoids zero = tt
spaces-Avoids (suc n) = (refl, spaces-Avoids n)

padded_text-Avoids : (p : Padded) → Avoids 44 (padded_text p)
padded_text-Avoids p =
    Avoids-append 44 (replicate p.before 32) (item_text p.item ++ replicate p.after 32)
      (spaces-Avoids p.before)
      (Avoids-append 44 (item_text p.item) (replicate p.after 32)
        (AllFrom-Avoids 44 (item_text p.item) (item_text-AllFrom p.item)) (spaces-Avoids p.after))

trim_back-AllFrom : (bs : List ℕ) → AllFrom 33 bs → trim_back bs ≡ bs
unfolding trim_back
trim_back-AllFrom [] a = refl
trim_back-AllFrom (b ∷ bs) a = ground (arith, trim_back-AllFrom bs a.1)

trim_front-AllFrom : (bs : List ℕ) → AllFrom 33 bs → trim_front bs ≡ bs
unfolding trim_front
trim_front-AllFrom [] a = refl
trim_front-AllFrom (b ∷ bs) a = ground arith

-- A text without spaces is not trimmed.
pub trim-AllFrom : (m : ℕ) (bs : List ℕ) → 33 ≤ m → AllFrom m bs → trim bs ≡ bs
unfolding trim
trim-AllFrom m bs h a =
    let b = AllFrom-le 33 m bs h a in
    ap trim_back (trim_front-AllFrom bs b) ∙ trim_back-AllFrom bs b

trim_back-spaces : (n : ℕ) → trim_back (replicate n 32) ≡ []
unfolding trim_back
trim_back-spaces zero = refl
trim_back-spaces (suc n) = rw (trim_back-spaces n) refl

trim_back-append : (bs : List ℕ) (n : ℕ) → AllFrom 33 bs → trim_back (bs ++ replicate n 32) ≡ bs
unfolding trim_back
trim_back-append [] n a = trim_back-spaces n
trim_back-append (b ∷ bs) n a = ground (arith, trim_back-append bs n a.1)

-- The spaces around a text that has none are trimmed.
trim-padded :
    (m : ℕ) (bs : List ℕ) (n : ℕ)
    → is_empty bs ≡ false
    → AllFrom 33 bs
    → trim (replicate m 32 ++ (bs ++ replicate n 32)) ≡ bs
unfolding trim trim_front
trim-padded zero [] n e a = absurd (ground arith)
trim-padded zero (b ∷ bs) n e a =
    let f : trim_front (b ∷ (bs ++ replicate n 32)) ≡ b ∷ (bs ++ replicate n 32) = ground arith in
    ap trim_back f ∙ trim_back-append (b ∷ bs) n a
trim-padded (suc m) bs n e a = trim-padded m bs n e a

trim-filled :
    (m : ℕ) (bs cs ds : List ℕ)
    → is_empty bs ≡ false
    → AllFrom 33 bs
    → is_empty (trim ((replicate m 32 ++ (bs ++ cs)) ++ ds)) ≡ false
unfolding trim trim_front trim_back
trim-filled zero [] cs ds e a = absurd (ground arith)
trim-filled zero (b ∷ bs) cs ds e a = ground arith
trim-filled (suc m) bs cs ds e a = trim-filled m bs cs ds e a

pieces-whole : (separator : ℕ) (bs : List ℕ) → Avoids separator bs → pieces separator bs ≡ bs ∷ []
unfolding pieces
pieces-whole separator [] a = refl
pieces-whole separator (b ∷ bs) a = rw (a.0, pieces-whole separator bs a.1) refl

pieces-append :
    (separator : ℕ) (bs cs : List ℕ)
    → Avoids separator bs
    → pieces separator (bs ++ (separator ∷ cs)) ≡ bs ∷ pieces separator cs
unfolding pieces
pieces-append separator [] cs a =
    let e : (separator == separator) ≡ true = ground arith in rw e refl
pieces-append separator (b ∷ bs) cs a = rw (a.0, pieces-append separator bs cs a.1) refl

abbrev pub texts : List Padded → List (List ℕ)
texts [] = []
texts (p ∷ ps) = padded_text p ∷ texts ps

-- Between the commas stand the items.
pub pieces-text : (p : Padded) (rest : List Padded) → pieces 44 (text p rest) ≡ texts (p ∷ rest)
pieces-text p [] = pieces-whole 44 (padded_text p) (padded_text-Avoids p)
pieces-text p (next ∷ rest) =
    pieces-append 44 (padded_text p) (text next rest) (padded_text-Avoids p)
    ∙ ap (◌∷◌ (padded_text p)) (pieces-text next rest)

number-digit_bytes :
    (n : ℕ) (ds : List ℕ) → AllDigits ds → number n (digit_bytes ds) ≡ some (value_from n ds)
unfolding number
number-digit_bytes n [] a = refl
number-digit_bytes n (d ∷ ds) a =
    let inside : (leb 48 (48 + d) && leb (48 + d) 57) ≡ true = ground arith in
    let e : 48 + d - 48 ≡ d = omega arith in rw (inside, e) (number-digit_bytes (n * 10 + d) ds a.1)

digit_bytes-empty : (ds : List ℕ) → is_empty (digit_bytes ds) ≡ is_empty ds
digit_bytes-empty [] = refl
digit_bytes-empty (d ∷ ds) = refl

port_number-digit_bytes :
    (ds : List ℕ) → IsNumeral ds → parse_port_number (digit_bytes ds) ≡ some (value ds)
unfolding parse_port_number in_range
port_number-digit_bytes ds h =
    let t = trim-AllFrom 46 (digit_bytes ds) (omega arith) (digit_bytes-AllFrom ds) in
    let e : is_empty (digit_bytes ds) ≡ false = digit_bytes-empty ds ∙ h.0 in
    let n = number-digit_bytes 0 ds h.1 in
    let inside : (value ds == 0 || ltb 65535 (value ds)) ≡ false = ground arith in
    rw (t, e, n, inside) refl

-- The ports of an item.
abbrev pub item_ports : Protocol → Item → List Port
item_ports protocol (single ds) = record { number = value ds; protocol = protocol } ∷ []
item_ports protocol (span low high) = count_up protocol (value low) (value high + 1 - value low)

item_text-filled : (item : Item) → IsItem item → is_empty (item_text item) ≡ false
item_text-filled (single ds) h = digit_bytes-empty ds ∙ h.0
item_text-filled (span [] high) h = absurd (ground arith)
item_text-filled (span (d ∷ low) high) h = refl

printable : (item : Item) → AllFrom 33 (item_text item)
printable item = AllFrom-le 33 45 (item_text item) (omega arith) (item_text-AllFrom item)

pub trim-text-filled :
    (p : Padded) (rest : List Padded) → IsItem p.item → is_empty (trim (text p rest)) ≡ false
trim-text-filled p [] h =
    ap (λ bs. is_empty (trim bs)) (sym (append-nil (padded_text p)))
    ∙ trim-filled p.before (item_text p.item) (replicate p.after 32) [] (item_text-filled p.item h)
        (printable p.item)
trim-text-filled p (next ∷ rest) h =
    trim-filled p.before (item_text p.item) (replicate p.after 32) (44 ∷ text next rest)
      (item_text-filled p.item h) (printable p.item)

no_dash : (ds : List ℕ) → Avoids 45 (digit_bytes ds)
no_dash ds = AllFrom-Avoids 45 (digit_bytes ds) (digit_bytes-AllFrom ds)

pieces-item_text :
    (protocol : Protocol) (item : Item)
    → IsItem item
    → piece_ports protocol (pieces 45 (item_text item)) ≡ some (item_ports protocol item)
unfolding piece_ports range
pieces-item_text protocol (single ds) h =
    rw (pieces-whole 45 (digit_bytes ds) (no_dash ds), port_number-digit_bytes ds h) refl
pieces-item_text protocol (span low high) h =
    let e = pieces-append 45 (digit_bytes low) (digit_bytes high) (no_dash low) in
    let f = pieces-whole 45 (digit_bytes high) (no_dash high) in
    let order : ltb (value high) (value low) ≡ false = ground arith in
    rw (e, f, port_number-digit_bytes low h.0, port_number-digit_bytes high h.1, order) refl

-- The token that an item is written as is read as the ports of the item.
pub token_ports-padded_text :
    (protocol : Protocol) (p : Padded)
    → IsItem p.item
    → token_ports protocol (padded_text p) ≡ some (item_ports protocol p.item)
unfolding token_ports
token_ports-padded_text protocol p h =
    let t =
      trim-padded p.before (item_text p.item) p.after (item_text-filled p.item h)
        (printable p.item) in
    rw (t, item_text-filled p.item h) (pieces-item_text protocol p.item h)
