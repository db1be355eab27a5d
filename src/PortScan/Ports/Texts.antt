-- ===== src/PortScan/Ports/Texts.antt =====
-- Texts of ports and port ranges, written down from their digits, of the kind that `parse_ports` of
-- src/portscan/port_types.cpp reads.
use skan.Base.{
  replicate, ℕ, ◌+◌, ◌*◌, ◌≤◌, ◌<◌, ◌≡◌, Bool, false, ◌&&◌, ◌||◌, List, [], ◌∷◌, ◌++◌, leb, ◌==◌,
}
use skan.PortScan.Ports.{is_empty}

-- A port, or the ports from one to another, by the decimal digits of the numbers.
pub data Item : Type 0 where
  single : List ℕ → Item
  span : List ℕ → List ℕ → Item

-- The digits as bytes.
abbrev pub digit_bytes : List ℕ → List ℕ
digit_bytes [] = []
digit_bytes (d ∷ ds) = (48 + d) ∷ digit_bytes ds

abbrev pub item_text : Item → List ℕ
item_text (single ds) = digit_bytes ds
item_text (span low high) = digit_bytes low ++ (45 ∷ digit_bytes high)

-- An item with a number of spaces in front of it and behind it.
pub record Padded : Type 0 where
  pub before : ℕ
  pub item : Item
  pub after : ℕ

abbrev pub padded_text : Padded → List ℕ
padded_text p = replicate p.before 32 ++ (item_text p.item ++ replicate p.after 32)

-- The items with commas between them.
abbrev pub text : Padded → List Padded → List ℕ
text p [] = padded_text p
text p (next ∷ rest) = padded_text p ++ (44 ∷ text next rest)

abbrev pub value_from : ℕ → List ℕ → ℕ
value_from n [] = n
value_from n (d ∷ ds) = value_from (n * 10 + d) ds

-- The number that the digits stand for, the first digit the highest.
abbrev pub value : List ℕ → ℕ
value ds = value_from 0 ds

abbrev pub covers : Item → ℕ → Bool
covers (single ds) n = n == value ds
covers (span low high) n = leb (value low) n && leb n (value high)

abbrev pub covered : List Padded → ℕ → Bool
covered [] n = false
covered (p ∷ ps) n = covers p.item n || covered ps n

abbrev pub AllDigits : List ℕ → Type 0
AllDigits [] = Unit
AllDigits (d ∷ ds) = (d < 10) × AllDigits ds

-- At least one digit, and a number from 1 to 65535.
abbrev pub IsNumeral : List ℕ → Type 0
IsNumeral ds = (is_empty ds ≡ false) × AllDigits ds × (1 ≤ value ds) × (value ds ≤ 65535)

abbrev pub IsItem : Item → Type 0
IsItem (single ds) = IsNumeral ds
IsItem (span low high) = IsNumeral low × IsNumeral high × (value low ≤ value high)

abbrev pub AllItems : List Padded → Type 0
AllItems [] = Unit
AllItems (p ∷ ps) = IsItem p.item × AllItems ps
